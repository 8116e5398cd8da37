-- ===== src/Ingest/Shown.antt =====
-- What a detected standard says of the logs: each of them that shows a standard shows this one.
use rust_evm_indexer.Base.{
  ℕ, zero, suc, ◌+◌, ◌-◌, ◌≤◌, min, ◌≡◌, refl, sym, subst, ◌⊎◌, inl, inr, true, List, [], ◌∷◌,
  Option, none, some, Bool-cases, Result, ok, err, ok_inj, >>=-eq-ok, All, In, leb, ltb, ◌==◌,
  if◌then◌else◌, arith, fail_if, inverted_range, chunk_size_zero, standard_not_detected,
}
use rust_evm_indexer.Base.Int.{u64_max, saturating_add}
use rust_evm_indexer.Base.Text.{Text, text_eq}
use rust_evm_indexer.Evm.{RpcLog, TokenStandard, auto, erc20, erc721, erc1155, standard_str}
use rust_evm_indexer.Evm.Decode.{Keccak, standard_eq, detect_token_standard_from_log}
use rust_evm_indexer.Ingest.Node.{ChainRpc}
use rust_evm_indexer.Ingest.Detect.{
  TokenStandardDetection, note_candidate, detect_from, detect_token_standard_from_logs, detect_loop,
  detect_token_standard_with_prefetched_logs,
}

standard_eq_sound : (a b : TokenStandard) → standard_eq a b ≡ true → a ≡ b
unfolding standard_eq standard_str text_eq
standard_eq_sound auto auto h = refl
standard_eq_sound auto _ h = cc
standard_eq_sound erc20 erc20 h = refl
standard_eq_sound erc20 _ h = cc
standard_eq_sound erc721 erc721 h = refl
standard_eq_sound erc721 _ h = cc
standard_eq_sound erc1155 erc1155 h = refl
standard_eq_sound erc1155 _ h = cc

module _ (hash : Keccak) where
  abbrev pub Silent : RpcLog → Type 0
  Silent log = detect_token_standard_from_log hash log ≡ ok none

  abbrev pub Shows : TokenStandard → RpcLog → Type 0
  Shows standard log = detect_token_standard_from_log hash log ≡ ok (some standard)

  -- No log shows a standard other than this one.
  abbrev pub AtMost : TokenStandard → List RpcLog → Type 0
  AtMost standard = All (λ log. Silent log ⊎ Shows standard log)

  -- What the logs show together.
  abbrev pub Found : Option TokenStandard → List RpcLog → Type 0
  Found none logs = All Silent logs
  Found (some standard) logs =
      AtMost standard logs × ((log : RpcLog) × In log logs × Shows standard log)

  -- The same, where a standard has been seen before.
  abbrev pub FoundAfter : Option TokenStandard → Option TokenStandard → List RpcLog → Type 0
  FoundAfter none found logs = Found found logs
  FoundAfter (some seen) found logs = (found ≡ some seen) × AtMost seen logs

  cons-Silent :
      (seen found : Option TokenStandard) (log : RpcLog) (logs : List RpcLog)
      → Silent log
      → FoundAfter seen found logs
      → FoundAfter seen found (log ∷ logs)
  cons-Silent none none log logs h k = (h, k)
  cons-Silent none (some s) log logs h (k, (other, there, shows)) =
      ((inl h, k), (other, inr there, shows))
  cons-Silent (some s) found log logs h (k, l) = (k, (inl h, l))

  cons-Shows :
      (seen seen' found : Option TokenStandard) (s : TokenStandard) (log : RpcLog)
      (logs : List RpcLog)
      → note_candidate seen (some s) ≡ ok seen'
      → Shows s log
      → FoundAfter seen' found logs
      → FoundAfter seen found (log ∷ logs)
  unfolding note_candidate
  cons-Shows none seen' found s log logs noted h k =
      let (same, most) : FoundAfter (some s) found logs =
        subst (λ o. FoundAfter o found logs) (sym (ok_inj noted)) k in
      rw same ((inr h, most), (log, inl refl, h))
  cons-Shows (some seen) seen' found s log logs noted h k = elim (Bool-cases (standard_eq seen s)) [
    | inl equal ↦
        let (found_seen, most) : FoundAfter (some seen) found logs =
          subst (λ o. FoundAfter o found logs) (sym (ok_inj (rw equal at noted))) k in
        (found_seen, (inr (rw (standard_eq_sound seen s equal) h), most))
    | inr other ↦ absurd (cc (rw other at noted))
  ]

  cons-FoundAfter :
      (candidate seen seen' found : Option TokenStandard) (log : RpcLog) (logs : List RpcLog)
      → detect_token_standard_from_log hash log ≡ ok candidate
      → note_candidate seen candidate ≡ ok seen'
      → FoundAfter seen' found logs
      → FoundAfter seen found (log ∷ logs)
  unfolding note_candidate
  cons-FoundAfter none seen seen' found log logs told noted later =
      cons-Silent seen found log logs told
        (subst (λ o. FoundAfter o found logs) (sym (ok_inj noted)) later)
  cons-FoundAfter (some s) seen seen' found log logs told noted later =
      cons-Shows seen seen' found s log logs noted told later

  pub detect_from-FoundAfter :
      (seen found : Option TokenStandard) (logs : List RpcLog)
      → detect_from hash seen logs ≡ ok found
      → FoundAfter seen found logs
  unfolding detect_from note_candidate
  detect_from-FoundAfter none found [] h = subst (λ o. Found o []) (ok_inj h) tt
  detect_from-FoundAfter (some seen) found [] h = (sym (ok_inj h), tt)
  detect_from-FoundAfter seen found (log ∷ logs) h =
      let (candidate, told, noted_rest) = >>=-eq-ok (detect_token_standard_from_log hash log) _ h in
      let (seen', noted, rest) = >>=-eq-ok (note_candidate seen candidate) _ noted_rest in
      cons-FoundAfter candidate seen seen' found log logs told noted
        (detect_from-FoundAfter seen' found logs rest)

  module _ (rpc : ChainRpc) (contract : Text) where
    -- The chunk lies in the range and is what the node answered, and its logs show the standard.
    abbrev pub IsDetected : ℕ → ℕ → TokenStandardDetection → Type 0
    IsDetected from to detection =
        (from ≤ detection.prefetched_logs.from)
        × (detection.prefetched_logs.to ≤ to)
        × (rpc.logs contract auto detection.prefetched_logs.from detection.prefetched_logs.to
            ≡ ok detection.prefetched_logs.logs)
        × Found (some detection.standard) detection.prefetched_logs.logs

    -- How a round ends, by what its logs show together.
    round-IsDetected :
        (found : Option TokenStandard) (from chunk_to to : ℕ) (logs : List RpcLog)
        (rest : Result TokenStandardDetection) (detection : TokenStandardDetection)
        → from ≤ chunk_to
        → chunk_to ≤ to
        → rpc.logs contract auto from chunk_to ≡ ok logs
        → Found found logs
        → (rest ≡ ok detection → IsDetected (chunk_to + 1) to detection)
        → elim found [
          | some standard ↦ ok record {
            standard = standard;
            prefetched_logs = record { from = from; to = chunk_to; logs = logs };
          }
          | none ↦ if chunk_to == u64_max then err standard_not_detected else rest
        ]
          ≡ ok detection
        → IsDetected from to detection
    round-IsDetected (some standard) from chunk_to to logs rest detection h k got shown later done =
        subst (IsDetected from to) (ok_inj done) (omega arith, k, got, shown)
    round-IsDetected none from chunk_to to logs rest detection h k got shown later done =
        elim (Bool-cases (chunk_to == u64_max)) [
          | inl last ↦ absurd (cc (rw last at done))
          | inr more ↦
              let (above, below, answered, found) = later (rw more at done) in
              (omega arith, below, answered, found)
        ]

    detect_loop-IsDetected :
        (fuel from to size : ℕ) (detection : TokenStandardDetection)
        → to ≤ u64_max
        → detect_loop hash rpc contract fuel from to size ≡ ok detection
        → IsDetected from to detection
    unfolding detect_loop detect_token_standard_from_logs
    detect_loop-IsDetected zero from to size detection h done = absurd (cc)
    detect_loop-IsDetected (suc fuel) from to size detection h done =
        elim (Bool-cases (leb from to)) [
          | inr past ↦ absurd (cc (rw past at done))
          | inl inside ↦
              let chunk_to : ℕ = min (saturating_add from (size - 1)) to in
              let (logs, got, more) =
                >>=-eq-ok (rpc.logs contract auto from chunk_to) _ (rw inside at done) in
              let (found, told, ends) =
                >>=-eq-ok (detect_token_standard_from_logs hash logs) _ more in
              round-IsDetected found from chunk_to to logs
                (detect_loop hash rpc contract fuel (chunk_to + 1) to size) detection (ground arith)
                (ground arith) got (detect_from-FoundAfter none found logs told)
                (detect_loop-IsDetected fuel (chunk_to + 1) to size detection h) ends
        ]

    -- Where a standard is detected over a range that ends at a 64-bit block, the chunk that showed
    -- it lies in the range and holds what the node answered for it; one of its logs shows the
    -- standard, and none shows another one.
    pub detect_token_standard_with_prefetched_logs-IsDetected :
        (from to size : ℕ) (detection : TokenStandardDetection)
        → to ≤ u64_max
        → detect_token_standard_with_prefetched_logs hash rpc contract from to size ≡ ok detection
        → IsDetected from to detection
    unfolding detect_token_standard_with_prefetched_logs
    detect_token_standard_with_prefetched_logs-IsDetected from to size detection h done =
        let (_, _, sized) = >>=-eq-ok (fail_if (ltb to from) inverted_range) _ done in
        let (_, _, found) = >>=-eq-ok (fail_if (size == 0) chunk_size_zero) _ sized in
        detect_loop-IsDetected (to - from + 2) from to size detection h found
