-- ===== src/Base/Action.antt =====
-- A call on a state: a result and the state it leaves, also when it fails.
use mathlib.Core.Path.{◌≡◌, refl}
use rust_evm_indexer.Base.Results.{Result, ok, err}

abbrev pub Action : Type 0 → Type 0 → Type 0
Action S A = S → Result A × S

module _ {S : Type 0} where
  infixl 5 ◌>>=◌ ◌>>◌
  abbrev pub ◌>>=◌ : {A B : Type 0} → Action S A → (A → Action S B) → Action S B
  ◌>>=◌ m f s = let (r, s') = m s in elim r [ ok a ↦ f a s' | err e ↦ (err e, s') ]

  abbrev pub ◌>>◌ : {A B : Type 0} → Action S A → Action S B → Action S B
  m >> k = m >>= λ _. k

  abbrev pub pure : {A : Type 0} → A → Action S A
  pure a s = (ok a, s)

  -- A computation that does not touch the state.
  abbrev pub lift : {A : Type 0} → Result A → Action S A
  lift r s = (r, s)

  -- A read of the state.
  abbrev pub query : {A : Type 0} → (S → Result A) → Action S A
  query f s = (f s, s)

  -- A transaction that fails leaves the state as it was.
  abbrev pub transaction : {A : Type 0} → (S → Result (A × S)) → Action S A
  transaction f s = elim (f s) [ ok (a, s') ↦ (ok a, s') | err e ↦ (err e, s) ]

  -- A property of the state survives a transaction whose success keeps it.
  pub transaction-keeps {ℓ} :
      {A : Type 0} (P : S → Type ℓ) (f : S → Result (A × S)) (s : S)
      → P s
      → ((a : A) (s' : S) → f s ≡ ok (a, s') → P s')
      → P (transaction f s).1
  transaction-keeps {A} P f s before keeps = go (f s) refl
    where
      go :
          (r : Result (A × S))
          → f s ≡ r
          → P (elim r as (λ _. Result A × S) [ ok (a, s') ↦ (ok a, s') | err e ↦ (err e, s) ]).1
      go (ok (a, s')) e = keeps a s' e
      go (err e) _ = before
