-- ===== src/Api/Paging.antt =====
-- A client that follows the `next_cursor` of `/transfers` from page to page.
use rust_evm_indexer.Base.{
  ℕ, zero, suc, ◌<◌, ◌≡◌, refl, ap, ◌∙◌, subst, ◌↔◌, inl, inr, List, [], ◌∷◌, ◌++◌, map, Option,
  none, some, Result, ok, ◌>>=◌, >>=-eq-ok, ok_inj, fail_if, length, take, last, All, In, select,
  Bool-cases, bad_request, ltb,
}
use rust_evm_indexer.Base.Int.{ℤ, pos}
use rust_evm_indexer.Base.Text.{Text}
use rust_evm_indexer.Ledger.Rows.{SourceRow, LedgerEntryRow, LedgerDb}
use rust_evm_indexer.Ledger.Page.{
  LedgerCursor, LedgerQuery, LedgerPage, LedgerTransfer, desc, cursor_of, cursor_of_last, selected,
  transfer_of, cut_page, ledger_page_conn, transfers_page, source_by_contract_conn,
}
use rust_evm_indexer.Ledger.Page.Sorted.{Distinct, Ordered, select-All, order-All}
use rust_evm_indexer.Ledger.Page.Wanted.{Wanted}
use rust_evm_indexer.Ledger.Page.Walk.{with_cursor, walk_pages, walk_pages_lem}
use rust_evm_indexer.Api.{
  LedgerPageQuery, normalize_evm_address, limit_or_default, parse_cursor, encode_cursor,
  normalize_movement_type, transpose, is_negative, is_inverted, to_ledger_query, page_response,
  contract_transfers,
}
use rust_evm_indexer.Api.Cursor.{IsCursor, parse_cursor-encode_cursor}

abbrev pub text_of : Option LedgerCursor → Option Text
text_of none = none
text_of (some cursor) = some (encode_cursor cursor)

-- The request for the page at a cursor.
abbrev pub request_at : LedgerPageQuery → Option LedgerCursor → LedgerPageQuery
request_at query cursor = record query { cursor = text_of cursor }

-- The cursor of a row is one that its text can hold.
abbrev pub HasCursor : LedgerEntryRow → Type 0
HasCursor row = IsCursor (cursor_of row)

-- What a cursor that is there has.
abbrev CursorOk : Option LedgerCursor → Type 0
CursorOk none = Unit
CursorOk (some cursor) = IsCursor cursor

cursor_read :
    (cursor : Option LedgerCursor)
    → CursorOk cursor
    → transpose parse_cursor (text_of cursor) ≡ ok cursor
cursor_read none h = refl
cursor_read (some c) h = rw ((parse_cursor-encode_cursor c).0 h) refl

module _ (query : LedgerPageQuery) (limit : ℤ) (cursor : Option LedgerCursor) where
  query_with :
      (found : Option LedgerCursor) (l : ℤ) (holder kind : Option Text)
      → limit_or_default query.limit limit ≡ ok l
      → fail_if (is_negative query.from_block) bad_request ≡ ok tt
      → fail_if (is_negative query.to_block) bad_request ≡ ok tt
      → fail_if (is_inverted query.from_block query.to_block) bad_request ≡ ok tt
      → transpose parse_cursor (text_of cursor) ≡ ok found
      → transpose normalize_evm_address query.holder ≡ ok holder
      → transpose normalize_movement_type query.movement_type ≡ ok kind
      → to_ledger_query (request_at query cursor) limit
        ≡ ok record {
          limit = l;
          cursor = found;
          from_block = query.from_block;
          to_block = query.to_block;
          holder = holder;
          token_id = query.token_id;
          movement_type = kind;
        }
  unfolding to_ledger_query
  query_with found l holder kind el ef et ei ec ea ek = rw (el, ef, et, ei, ec, ea, ek) refl

  -- Asking for a further page changes nothing but the cursor.
  request_at_lem :
      (checked : LedgerQuery)
      → to_ledger_query (request_at query none) limit ≡ ok checked
      → CursorOk cursor
      → to_ledger_query (request_at query cursor) limit ≡ ok (with_cursor cursor checked)
  unfolding to_ledger_query
  request_at_lem checked h good =
      let (l, el, h1) = >>=-eq-ok (limit_or_default query.limit limit) _ h in
      let (_, ef, h2) = >>=-eq-ok (fail_if (is_negative query.from_block) bad_request) _ h1 in
      let (_, et, h3) = >>=-eq-ok (fail_if (is_negative query.to_block) bad_request) _ h2 in
      let (_, ei, h4) =
        >>=-eq-ok (fail_if (is_inverted query.from_block query.to_block) bad_request) _ h3 in
      let (a, ea, h5) = >>=-eq-ok (transpose normalize_evm_address query.holder) _ h4 in
      let (k, ek, done) = >>=-eq-ok (transpose normalize_movement_type query.movement_type) _ h5 in
      subst (λ q. to_ledger_query (request_at query cursor) limit ≡ ok (with_cursor cursor q))
        (ok_inj done) (query_with cursor l a k el ef et ei (cursor_read cursor good) ea ek)

take-All : {A : Type 0} (P : A → Type 0) (n : ℕ) (xs : List A) → All P xs → All P (take n xs)
take-All P zero xs h = tt
take-All P (suc n) [] h = tt
take-All P (suc n) (x ∷ xs) (h, hs) = (h, take-All P n xs hs)

last-Ok : (rows : List LedgerEntryRow) → All HasCursor rows → CursorOk (cursor_of_last (last rows))
unfolding cursor_of_last
last-Ok [] h = tt
last-Ok (row ∷ []) h = h.0
last-Ok (row ∷ other ∷ rows) h = last-Ok (other ∷ rows) h.1

module _ (amount_string : ℤ → Text) (db : LedgerDb) where
  cut-Ok :
      (limit : ℕ) (rows : List LedgerEntryRow)
      → All HasCursor rows
      → CursorOk (cut_page amount_string limit rows).next_cursor
  unfolding cut_page
  cut-Ok limit rows h = elim (Bool-cases (ltb limit (length rows))) [
    | inl long ↦ rw long (last-Ok (take limit rows) (take-All HasCursor limit rows h))
    | inr short ↦ rw short tt
  ]

  page-Ok :
      (source_id : ℕ) (query : LedgerQuery)
      → All HasCursor db.ledger_entries
      → CursorOk (ledger_page_conn amount_string db source_id query desc).next_cursor
  unfolding ledger_page_conn
  page-Ok source_id query h =
      cut-Ok _ _ (take-All HasCursor _ _ (order-All desc HasCursor _ (select-All HasCursor _ _ h)))

  -- The items of at most so many pages, or the error of a request.
  unfoldable pub read_all : ℕ → ℤ → Text → LedgerPageQuery → Result (List LedgerTransfer)
  read_all zero chain_id address query = ok []
  read_all (suc pages) chain_id address query = do
    page ← contract_transfers amount_string db chain_id address query
    rest ← elim page.next_cursor [
      | none ↦ ok []
      | some text ↦ read_all pages chain_id address (record query { cursor = some text })
    ]
    ok (page.items ++ rest)

  module _ (chain_id : ℤ) (address lower : Text) (query : LedgerPageQuery) (checked : LedgerQuery)
      (source : SourceRow) (good : All HasCursor db.ledger_entries)
      (accepted : to_ledger_query (request_at query none) (pos 50) ≡ ok checked)
      (known : normalize_evm_address address ≡ ok lower)
      (found : source_by_contract_conn db chain_id lower ≡ some source) where
    page_found :
        (q : LedgerQuery)
        → transfers_page amount_string db chain_id lower q
          ≡ some (ledger_page_conn amount_string db source.id q desc)
    unfolding transfers_page
    page_found q = rw (found, transfers_page) refl

    handler_lem :
        (cursor : Option LedgerCursor)
        → CursorOk cursor
        → contract_transfers amount_string db chain_id address (request_at query cursor)
          ≡ ok (
              page_response
                (ledger_page_conn amount_string db source.id (with_cursor cursor checked) desc))
    unfolding contract_transfers
    handler_lem cursor h =
        rw (known, request_at_lem query (pos 50) cursor checked accepted h, page_found _) refl

    read_page :
        (pages : ℕ) (cursor : Option LedgerCursor) (items : List LedgerTransfer)
        (next : Option LedgerCursor)
        → let page : LedgerPage LedgerTransfer = record { items = items; next_cursor = next } in
          contract_transfers amount_string db chain_id address (request_at query cursor)
            ≡ ok (page_response page)
          → ledger_page_conn amount_string db source.id (with_cursor cursor checked) desc ≡ page
          → read_all pages chain_id address (request_at query next)
            ≡ ok (walk_pages amount_string db source.id desc pages checked next)
          → read_all (suc pages) chain_id address (request_at query cursor)
            ≡ ok (walk_pages amount_string db source.id desc (suc pages) checked cursor)
    unfolding read_all walk_pages page_response
    read_page pages cursor items none answer page later = rw (answer, page) refl
    read_page pages cursor items (some next) answer page later = rw (answer, page, later) refl

    read_all-walk :
        (pages : ℕ) (cursor : Option LedgerCursor)
        → CursorOk cursor
        → read_all pages chain_id address (request_at query cursor)
          ≡ ok (walk_pages amount_string db source.id desc pages checked cursor)
    read_all-walk zero cursor h = unfold read_all walk_pages in refl
    read_all-walk (suc pages) cursor h =
        let page = ledger_page_conn amount_string db source.id (with_cursor cursor checked) desc in
        read_page pages cursor page.items page.next_cursor (handler_lem cursor h) refl (
          read_all-walk pages page.next_cursor
            (page-Ok source.id (with_cursor cursor checked) good))

    -- A client that follows the cursors of `/transfers`, with more requests than the table has
    -- rows, reads each row that its filters want exactly once, the latest first, if no two of them
    -- have one place. The request and its address are accepted, the address's source is there, and
    -- each row has a place in range.
    pub read_all_lem :
        (pages : ℕ)
        → Distinct (select (selected source.id checked) db.ledger_entries)
        → length db.ledger_entries < pages
        → (rows : List LedgerEntryRow) × (read_all pages chain_id address (request_at query none)
            ≡ ok (map (transfer_of amount_string) rows))
          × Ordered desc rows
          × ((row : LedgerEntryRow)
              → In row rows ↔ (In row db.ledger_entries × Wanted source.id checked row))
    read_all_lem pages distinct enough =
        let (rows, walked, ordered, same) =
          walk_pages_lem amount_string db source.id desc pages checked distinct enough in
        (rows, read_all-walk pages none tt ∙ ap ok walked, ordered, same)
