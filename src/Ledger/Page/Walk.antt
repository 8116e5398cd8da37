-- ===== src/Ledger/Page/Walk.antt =====
-- Reading the ledger page by page: a client asks again with the cursor of the page before.
use rust_evm_indexer.Base.{
  ℕ, zero, suc, ◌+◌, ◌≤◌, ◌<◌, ltb, ◌≡◌, refl, ap, sym, ◌∙◌, subst, inl, inr, ◌↔◌, true, Bool, List,
  [], ◌∷◌, ◌++◌, map, Option, none, some, length, take, All, In, In-select, select, Bool-cases,
  append_nil, append_assoc, length-append, arith,
}
use rust_evm_indexer.Base.Int.{ℤ, as_u64}
use rust_evm_indexer.Base.Text.{Text}
use rust_evm_indexer.Ledger.Rows.{LedgerEntryRow, LedgerDb}
use rust_evm_indexer.Ledger.Page.{
  LedgerCursor, LedgerQuery, LedgerSort, LedgerTransfer, cursor_of, clamp_limit, past, where_some,
  selected, order_rows, transfer_of, cut_page, ledger_page_conn,
}
use rust_evm_indexer.Ledger.Page.Sorted.{
  Distinct, Ordered, order-Ordered, order-select, order-In, length-order,
}
use rust_evm_indexer.Ledger.Page.Wanted.{Wanted, selected_iff}
use rust_evm_indexer.Ledger.Page.Cut.{
  select_both, select-All, select-past, transfers, cut_page-short, cut_page-long,
}

abbrev pub with_cursor : Option LedgerCursor → LedgerQuery → LedgerQuery
with_cursor cursor query = record query { cursor = cursor }

module _ {A : Type 0} where
  always-All : (xs : List A) → All (λ x. true ≡ true) xs
  always-All [] = tt
  always-All (x ∷ xs) = (refl, always-All xs)

  length-select : (test : A → Bool) (xs : List A) → length (select test xs) ≤ length xs
  length-select test [] = omega arith
  length-select test (x ∷ xs) = ground (arith, length-select test xs)

  select-In :
      (test : A → Bool) (xs : List A) (a : A) → In a xs → test a ≡ true → In a (select test xs)
  select-In test [] a m hit = absurd m
  select-In test (x ∷ xs) a (inl e) hit =
      let hit' : test x ≡ true = ap test e ∙ hit in rw hit' (inl e)
  select-In test (x ∷ xs) a (inr m) hit = elim (Bool-cases (test x)) [
    | inl keep ↦ rw keep (inr (select-In test xs a m hit))
    | inr miss ↦ rw miss (select-In test xs a m hit)
  ]

module _ (amount_string : ℤ → Text) (db : LedgerDb) (source_id : ℕ) (sort : LedgerSort) where
  -- At most so many pages, from a cursor on.
  unfoldable pub walk_pages : ℕ → LedgerQuery → Option LedgerCursor → List LedgerTransfer
  walk_pages zero query cursor = []
  walk_pages (suc pages) query cursor =
      let page = ledger_page_conn amount_string db source_id (with_cursor cursor query) sort in
      page.items
      ++ elim page.next_cursor [ none ↦ [] | some next ↦ walk_pages pages query (some next) ]

  abbrev live_rows : LedgerQuery → List LedgerEntryRow
  live_rows query = select (selected source_id query) db.ledger_entries

  limit_of : LedgerQuery → ℕ
  limit_of query = as_u64 (clamp_limit query.limit)

  limit_pos : (query : LedgerQuery) → 1 ≤ limit_of query
  unfolding limit_of clamp_limit
  limit_pos query = ground arith

  is_past : Option LedgerCursor → LedgerEntryRow → Bool
  is_past cursor row = where_some cursor (λ c. past sort c (cursor_of row))

  -- A page is cut from the sorted rows that are past its cursor.
  page_lem :
      (query : LedgerQuery) (cursor : Option LedgerCursor)
      → Distinct (live_rows query)
      → ledger_page_conn amount_string db source_id (with_cursor cursor query) sort
        ≡ cut_page amount_string (limit_of query) (
            take (limit_of query + 1) (select (is_past cursor) (order_rows sort (live_rows query))))
  unfolding ledger_page_conn selected limit_of is_past
  page_lem query cursor distinct =
      rw
        (
          order-select sort (is_past cursor) (live_rows query) distinct,
          select_both (selected source_id query) (is_past cursor) db.ledger_entries,
        )
        refl

  same_rows :
      (query : LedgerQuery) (row : LedgerEntryRow)
      → In row (order_rows sort (live_rows query))
        ↔ (In row db.ledger_entries × Wanted source_id query row)
  same_rows query row =
      let (to, from) = order-In sort (live_rows query) row in
      let (wanted, select_it) = selected_iff source_id query row in
      (
        λ m.
            let (there, hit) = In-select (selected source_id query) db.ledger_entries row (to m) in
            (there, wanted hit),
        λ (there, asked).
            from
              (select-In (selected source_id query) db.ledger_entries row there (select_it asked)),
      )

  transfers-append :
      (xs ys : List LedgerEntryRow)
      → transfers amount_string xs ++ transfers amount_string ys
        ≡ transfers amount_string (xs ++ ys)
  transfers-append [] ys = refl
  transfers-append (x ∷ xs) ys = ap (λ l. transfer_of amount_string x ∷ l) (transfers-append xs ys)

  walk-short :
      (pages : ℕ) (query : LedgerQuery) (cursor : Option LedgerCursor) (rows : List LedgerEntryRow)
      → ledger_page_conn amount_string db source_id (with_cursor cursor query) sort
        ≡ record { items = transfers amount_string rows; next_cursor = none }
      → walk_pages (suc pages) query cursor ≡ transfers amount_string rows
  unfolding walk_pages
  walk-short pages query cursor rows page = rw page (append_nil (transfers amount_string rows))

  walk-long :
      (pages : ℕ) (query : LedgerQuery) (cursor : Option LedgerCursor) (next : LedgerCursor)
      (rows : List LedgerEntryRow) (rest : List LedgerTransfer)
      → ledger_page_conn amount_string db source_id (with_cursor cursor query) sort
        ≡ record { items = transfers amount_string rows; next_cursor = some next }
      → walk_pages pages query (some next) ≡ rest
      → walk_pages (suc pages) query cursor ≡ transfers amount_string rows ++ rest
  unfolding walk_pages
  walk-long pages query cursor next rows rest page later = rw (page, later) refl

  walk-rows :
      (pages : ℕ) (query : LedgerQuery) (cursor : Option LedgerCursor)
      (before rows : List LedgerEntryRow)
      → Distinct (live_rows query)
      → before ++ rows ≡ order_rows sort (live_rows query)
      → select (is_past cursor) (order_rows sort (live_rows query)) ≡ rows
      → length rows < pages
      → walk_pages pages query cursor ≡ transfers amount_string rows
  walk-rows zero query cursor before rows distinct whole ahead h = absurd (omega arith)
  walk-rows (suc pages) query cursor before rows distinct whole ahead h =
      let page = page_lem query cursor distinct in
      let page' : ledger_page_conn amount_string db source_id (with_cursor cursor query) sort
          ≡ cut_page amount_string (limit_of query) (take (limit_of query + 1) rows) =
        page
        ∙ ap (λ l. cut_page amount_string (limit_of query) (take (limit_of query + 1) l)) ahead in
      elim (Bool-cases (ltb (limit_of query) (length rows))) [
        | inr short ↦
            walk-short pages query cursor rows
              (page' ∙ cut_page-short amount_string (limit_of query) rows (ground arith))
        | inl long ↦
            let (init, row, rest, split, cut) =
              cut_page-long amount_string (limit_of query) rows (limit_pos query) (ground arith) in
            let joined : before ++ init ++ row ∷ rest ≡ order_rows sort (live_rows query) =
              append_assoc before init (row ∷ rest) ∙ ap (λ l. before ++ l) (sym split) ∙ whole in
            let ordered = order-Ordered sort (live_rows query) distinct in
            let further : select (is_past (some (cursor_of row)))
                  (order_rows sort (live_rows query))
                ≡ rest =
              subst (λ l. Ordered sort l → select (is_past (some (cursor_of row))) l ≡ rest) joined
                (unfold is_past in select-past sort (before ++ init) row rest) ordered in
            let fewer : length rest < pages =
              omega (arith, ap length split, length-append init (row ∷ rest)) in
            let later =
              walk-rows pages query (some (cursor_of row)) (before ++ init ++ row ∷ []) rest
                distinct (append_assoc (before ++ init) (row ∷ []) rest ∙ joined) further fewer in
            walk-long pages query cursor (cursor_of row) (init ++ row ∷ []) _ (page' ∙ cut) later
            ∙ transfers-append (init ++ row ∷ []) rest
            ∙ ap (transfers amount_string) (append_assoc init (row ∷ []) rest ∙ sym split)
      ]

  -- Reading from the first page on, with more pages than the table has rows, gives each row that
  -- the query wants exactly once, in the order of the pages, if no two of them have one place.
  pub walk_pages_lem :
      (pages : ℕ) (query : LedgerQuery)
      → Distinct (select (selected source_id query) db.ledger_entries)
      → length db.ledger_entries < pages
      → (rows : List LedgerEntryRow) × (walk_pages pages query none
          ≡ map (transfer_of amount_string) rows)
        × Ordered sort rows
        × ((row : LedgerEntryRow)
            → In row rows ↔ (In row db.ledger_entries × Wanted source_id query row))
  walk_pages_lem pages query distinct enough =
      let rows = order_rows sort (live_rows query) in
      let everything : select (is_past none) rows ≡ rows =
        unfold is_past in select-All _ rows (always-All rows) in
      let few : length rows < pages = omega (
        arith,
        enough,
        length-order sort (live_rows query),
        length-select (selected source_id query) db.ledger_entries,
      ) in
      (
        rows,
        walk-rows pages query none [] rows distinct refl everything few,
        order-Ordered sort (live_rows query) distinct,
        λ row. same_rows query row,
      )
