-- ===== src/Base/Results.antt =====
-- `anyhow::Result` and `QueryResult`: a value, or the place that raised the error. The text of a
-- message and its added context are left out; each `bail!` and `Err` has a constructor.
use mathlib.Core.Path.{◌≡◌, refl}
use mathlib.Core.Logic.{◌⊎◌, inl, inr, ◌≢◌}
use mathlib.Core.Bool.{Bool, true, false}
use rust_evm_indexer.Base.Tests.{if◌then◌else◌, Bool-cases}
use mathlib.Core.Option.{Option, none, some}

pub data Error : Type 0 where
  max_attempts_not_positive range_size_zero chunk_size_zero inverted_range : Error
  block_too_large negative_range : Error
  not_found negative_processed negative_finalized processed_above_finalized : Error
  checkpoint_hash_mismatch negative_balance other_source row_rejected : Error
  unparsable missing_prefix bad_length bad_word bad_topic_count missing_word : Error
  offset_unaligned length_mismatch unsupported_standard ambiguous_transfer : Error
  conflicting_standards standard_not_detected hybrid_transfer negative_confirmations : Error
  invalid_address invalid_hash invalid_amount empty_value both_zero invalid_checkpoint : Error
  invalid_enum no_contract_code rpc_failed unsupported_job_type missing_field : Error
  source_not_found chain_not_found chain_mismatch target_not_finalized auto_standard : Error
  out_of_fuel panicked bad_request : Error

pub data Result {ℓ} (T : Type ℓ) : Type ℓ where
  err : Error → Result T
  ok : T → Result T

-- `if c { bail!(e) }`
abbrev pub fail_if : Bool → Error → Result (Unit {0})
fail_if failed reason = if failed then err reason else ok tt

-- `ok_or_else`, `context` on an `Option`.
abbrev pub or_err {ℓ} : {T : Type ℓ} → Option T → Error → Result T
or_err none reason = err reason
or_err (some value) reason = ok value

-- The `?` operator.
module _ {ℓ κ} {T : Type ℓ} {U : Type κ} where
  infixl 5 ◌>>=◌
  abbrev pub ◌>>=◌ : Result T → (T → Result U) → Result U
  err reason >>= next = err reason
  ok value >>= next = next value

  -- What both steps of a chain that succeeded have returned.
  pub >>=-eq-ok :
      (first : Result T) (next : T → Result U) {u : U}
      → (first >>= next) ≡ ok u
      → (value : T) × (first ≡ ok value) × (next value ≡ ok u)
  >>=-eq-ok (err reason) next done = cc
  >>=-eq-ok (ok value) next done = (value, refl, done)

infixl 5 ◌>>◌
abbrev pub ◌>>◌ {ℓ} : {U : Type ℓ} → Result (Unit {0}) → Result U → Result U
check >> rest = check >>= λ _. rest

abbrev pub is_panic : Error → Bool
is_panic panicked = true
is_panic _ = false

-- What `await` gives of a call: an error is a value, and a panic unwinds.
abbrev pub unless_panicked {ℓ} : {T : Type ℓ} → Result T → Result (Result T)
unless_panicked (ok value) = ok (ok value)
unless_panicked (err e) = if is_panic e then err e else ok (err e)

is_panic_sound : (e : Error) → is_panic e ≡ true → e ≡ panicked
is_panic_sound panicked h = refl
is_panic_sound _ h = cc

panic_differs {ℓ} :
    {T : Type ℓ} (e : Error) → is_panic e ≡ false → ◌≡◌ {A = Result T} (err e) (err panicked) → ⊥
panic_differs e miss same = let here : e ≡ panicked = cc in absurd (cc (rw here at miss))

pub panic-cases {ℓ} :
    {T : Type ℓ} (r : Result T)
    → ((r ≡ err panicked) × (unless_panicked r ≡ err panicked))
      ⊎ ((r ≢ err panicked) × (unless_panicked r ≡ ok r))
panic-cases (ok value) = inr (λ same. cc, refl)
panic-cases (err e) = elim (Bool-cases (is_panic e)) [
  | inl hit ↦ let same = is_panic_sound e hit in inl (rw same refl, rw same refl)
  | inr miss ↦ inr (λ same. panic_differs e miss same, rw miss refl)
]

pub Result-cases {ℓ} :
    {T : Type ℓ} (r : Result T) → ((e : Error) × (r ≡ err e)) ⊎ ((value : T) × (r ≡ ok value))
Result-cases (err e) = inl (e, refl)
Result-cases (ok value) = inr (value, refl)

pub ok_inj {ℓ} : {T : Type ℓ} {a b : T} → ok a ≡ ok b → a ≡ b
ok_inj e = cc
