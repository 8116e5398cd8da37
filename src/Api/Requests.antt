-- ===== src/Api/Requests.antt =====
-- What a checked request is worth: the bounds that `to_ledger_query` guarantees.
use rust_evm_indexer.Base.{
  ◌≡◌, refl, sym, inl, inr, ◌⊎◌, true, false, Bool, ◌&&◌, ◌||◌, [], ◌∷◌, Option, none, some, Result,
  ok, err, ◌>>=◌, fail_if, length, In, Bool-cases, bad_request, arith, if◌then◌else◌,
}
use rust_evm_indexer.Base.Int.{ℤ, pos, ◌≤ℤ◌, leb_ℤ}
use rust_evm_indexer.Base.Text.{
  Text, codes, text_eq, text_eq_iff, to_ascii_lowercase, lowercase_idem,
}
use rust_evm_indexer.Ledger.Page.{LedgerQuery, LedgerCursor}
use rust_evm_indexer.Ledger.Page.Wanted.{WhereSome}
use rust_evm_indexer.Api.{
  LedgerPageQuery, normalize_evm_address, limit_or_default, parse_cursor, normalize_movement_type,
  transpose, is_negative, is_inverted, to_ledger_query,
}
use rust_evm_indexer.Api.Cursor.{IsCursor, parse_cursor-IsCursor, parse_cursor_cases}

-- A computation that succeeds with a property, or is a bad request.
abbrev pub Checked : {T : Type 0} → Result T → (T → Type 0) → Type 0
Checked {T} m P = (m ≡ err bad_request) ⊎ ((value : T) × (m ≡ ok value) × P value)

Checked->>= :
    {T U : Type 0} (m : Result T) (next : T → Result U) (P : T → Type 0) (Q : U → Type 0)
    → Checked m P
    → ((value : T) → P value → Checked (next value) Q)
    → Checked (m >>= next) Q
Checked->>= m next P Q (inl e) k = inl (rw e refl)
Checked->>= m next P Q (inr (value, e, p)) k = rw e (k value p)

Checked-fail_if : (failed : Bool) → Checked (fail_if failed bad_request) (λ _. failed ≡ false)
Checked-fail_if true = inl refl
Checked-fail_if false = inr (tt, refl, refl)

-- Both are there and related, or neither is there.
abbrev pub Both : {A B : Type 0} → (A → B → Type 0) → Option A → Option B → Type 0
Both R none none = Unit
Both R none (some b) = ⊥
Both R (some a) none = ⊥
Both R (some a) (some b) = R a b

Checked-transpose :
    {A B : Type 0} (read : A → Result B) (R : A → B → Type 0) (o : Option A)
    → ((a : A) → Checked (read a) (R a))
    → Checked (transpose read o) (Both R o)
Checked-transpose read R none h = inr (none, refl, tt)
Checked-transpose read R (some a) h =
    Checked->>= (read a) (λ b. ok (some b)) (R a) (Both R (some a)) (h a)
      (λ b p. inr (some b, refl, p))

Checked-if :
    {T : Type 0} (test : Bool) (value : T) (P : T → Type 0)
    → (test ≡ true → P value)
    → Checked (if test then ok value else err bad_request) P
Checked-if true value P h = inr (value, refl, h refl)
Checked-if false value P h = inl refl

Checked-unless :
    {T : Type 0} (test : Bool) (value : T) (P : T → Type 0)
    → (test ≡ false → P value)
    → Checked (if test then err bad_request else ok value) P
Checked-unless false value P h = inr (value, refl, h refl)
Checked-unless true value P h = inl refl

abbrev pub IsLimit : ℤ → Type 0
IsLimit limit = (pos 1 ≤ℤ limit) × (limit ≤ℤ pos 100)

within : (limit : ℤ) → leb_ℤ (pos 1) limit && leb_ℤ limit (pos 100) ≡ true → IsLimit limit
within limit h = ground arith

-- The limit that is asked for, or the default.
abbrev pub IsLimitOf : Option ℤ → ℤ → ℤ → Type 0
IsLimitOf none default limit = (limit ≡ default) × IsLimit limit
IsLimitOf (some asked) default limit = (limit ≡ asked) × IsLimit limit

IsLimit-Checked :
    (requested : Option ℤ) (default : ℤ)
    → Checked (limit_or_default requested default) (IsLimitOf requested default)
unfolding limit_or_default
IsLimit-Checked none default =
    Checked-if _ default (IsLimitOf none default) (λ h. (refl, within default h))
IsLimit-Checked (some limit) default =
    Checked-if _ limit (IsLimitOf (some limit) default) (λ h. (refl, within limit h))

-- An address as the tables hold it: 42 characters in lower case.
abbrev pub IsAddress : Text → Type 0
IsAddress value = (length value ≡ 42) × (to_ascii_lowercase value ≡ value)

-- The address that a text names.
abbrev pub IsAddressOf : Text → Text → Type 0
IsAddressOf value address = (address ≡ to_ascii_lowercase value) × IsAddress address

IsAddress-Checked : (value : Text) → Checked (normalize_evm_address value) (IsAddressOf value)
unfolding normalize_evm_address
IsAddress-Checked value =
    Checked-unless _ (to_ascii_lowercase value) (IsAddressOf value)
      (λ h. (refl, (ground arith, lowercase_idem value)))

abbrev pub IsMovement : Text → Type 0
IsMovement value = In value (codes "mint" ∷ codes "transfer" ∷ codes "burn" ∷ [])

one_of :
    (value a b c : Text)
    → text_eq value a || (text_eq value b || text_eq value c) ≡ true
    → In value (a ∷ b ∷ c ∷ [])
one_of value a b c h = elim (Bool-cases (text_eq value a)) [
  | inl first ↦ inl (sym ((text_eq_iff value a).0 first))
  | inr other ↦
      let h' : text_eq value b || text_eq value c ≡ true = rw other at h in
      elim (Bool-cases (text_eq value b)) [
        | inl second ↦ inr (inl (sym ((text_eq_iff value b).0 second)))
        | inr third ↦
            let h'' : text_eq value c ≡ true = rw third at h' in
            inr (inr (inl (sym ((text_eq_iff value c).0 h''))))
      ]
]

-- The kind of movement that a text names.
abbrev pub IsMovementOf : Text → Text → Type 0
IsMovementOf value kind = (kind ≡ to_ascii_lowercase value) × IsMovement kind

IsMovement-Checked : (value : Text) → Checked (normalize_movement_type value) (IsMovementOf value)
unfolding normalize_movement_type
IsMovement-Checked value = Checked-if _ (to_ascii_lowercase value) (IsMovementOf value) (λ h.
    (refl, one_of (to_ascii_lowercase value) (codes "mint") (codes "transfer") (codes "burn") h))

-- The cursor that a text is read as.
abbrev pub IsCursorOf : Text → LedgerCursor → Type 0
IsCursorOf value cursor = (parse_cursor value ≡ ok cursor) × IsCursor cursor

IsCursor-Checked : (value : Text) → Checked (parse_cursor value) (IsCursorOf value)
IsCursor-Checked value = elim (parse_cursor_cases value) [
  | inl e ↦ inl e
  | inr (c, e) ↦ inr (c, e, (e, parse_cursor-IsCursor value c e))
]

abbrev pub IsBlock : ℤ → Type 0
IsBlock block = pos 0 ≤ℤ block

not_negative : (block : Option ℤ) → is_negative block ≡ false → WhereSome block IsBlock
not_negative none h = tt
not_negative (some block) h = ground arith

-- The first block is not behind the last, where both are there.
abbrev pub NotInverted : Option ℤ → Option ℤ → Type 0
NotInverted (some from) (some to) = from ≤ℤ to
NotInverted (some from) none = Unit
NotInverted none to = Unit

not_inverted : (from to : Option ℤ) → is_inverted from to ≡ false → NotInverted from to
not_inverted (some from) (some to) h = ground arith
not_inverted (some from) none h = tt
not_inverted none to h = tt

-- A query that the repository may be given for a request.
abbrev pub IsChecked : LedgerPageQuery → ℤ → LedgerQuery → Type 0
IsChecked query default_limit checked =
    IsLimitOf query.limit default_limit checked.limit
    × ((checked.from_block ≡ query.from_block) × WhereSome query.from_block IsBlock)
    × ((checked.to_block ≡ query.to_block) × WhereSome query.to_block IsBlock)
    × NotInverted query.from_block query.to_block
    × Both IsCursorOf query.cursor checked.cursor
    × Both IsAddressOf query.holder checked.holder
    × (checked.token_id ≡ query.token_id)
    × Both IsMovementOf query.movement_type checked.movement_type

-- A request is a bad request, or is turned into a query with its limit, or else the default, which
-- is from 1 to 100, and with its blocks, which are not negative and not inverted. The query has a
-- cursor, a holder, a token and a kind of movement exactly if the request names them: the cursor
-- that is read from the text, in range; the holder's address in lower case, of 42 characters; the
-- token as it is; and the kind in lower case, one of the three.
pub to_ledger_query_lem :
    (query : LedgerPageQuery) (default_limit : ℤ)
    → (to_ledger_query query default_limit ≡ err bad_request)
      ⊎ ((checked : LedgerQuery) × (to_ledger_query query default_limit ≡ ok checked)
          × IsChecked query default_limit checked)
unfolding to_ledger_query
to_ledger_query_lem query default_limit =
    Checked->>= (limit_or_default query.limit default_limit) _ (IsLimitOf query.limit default_limit)
      (IsChecked query default_limit) (IsLimit-Checked query.limit default_limit)
      λ limit l.
        Checked->>= (fail_if (is_negative query.from_block) bad_request) _ _ _ (Checked-fail_if _)
          λ _ f.
            Checked->>= (fail_if (is_negative query.to_block) bad_request) _ _ _ (Checked-fail_if _)
              λ _ t.
                Checked->>= (fail_if (is_inverted query.from_block query.to_block) bad_request) _ _
                  _ (Checked-fail_if _)
                  λ _ i.
                    Checked->>= (transpose parse_cursor query.cursor) _ _ _
                      (Checked-transpose parse_cursor IsCursorOf query.cursor IsCursor-Checked)
                      λ cursor c.
                        Checked->>= (transpose normalize_evm_address query.holder) _ _ _
                          (Checked-transpose normalize_evm_address IsAddressOf query.holder
                            IsAddress-Checked)
                          λ holder a.
                            Checked->>= (transpose normalize_movement_type query.movement_type) _ _
                              _
                              (Checked-transpose normalize_movement_type IsMovementOf
                                query.movement_type IsMovement-Checked)
                              λ kind k. inr (
                                _,
                                refl,
                                (
                                  l,
                                  (refl, not_negative query.from_block f),
                                  (refl, not_negative query.to_block t),
                                  not_inverted query.from_block query.to_block i,
                                  c,
                                  a,
                                  refl,
                                  k,
                                ),
                              )
