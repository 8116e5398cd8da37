-- ===== src/Ledger/Checkpoint/Target.antt =====
-- The target of a checkpoint is the end of the blocks that follow the frontier without a gap.
use rust_evm_indexer.Base.{
  ℕ, ◌≡◌, refl, sym, subst, true, false, ◌&&◌, ◌⊎◌, inl, inr, List, [], ◌∷◌, ◌++◌, Option, none,
  some, if◌then◌else◌, All, Any, arith, Bool-cases, ok, >>=-eq-ok, ok_inj, All-split, ◌==◌,
}
use rust_evm_indexer.Base.Int.{ℤ, ◌+ℤ◌, ◌≤ℤ◌, ◌<ℤ◌, leb_ℤ, ltb_ℤ, succ_sat, eq_of_parts}
use rust_evm_indexer.Domain.Job.{ingest_range, succeeded}
use rust_evm_indexer.Jobs.Table.{JobRow}
use rust_evm_indexer.Ledger.Rows.{SourceRow}
use rust_evm_indexer.Ledger.Checkpoint.{
  CheckpointRow, checkpoint_of, sort_ranges, extend_target, frontier_of, option_list, filter_map,
  push_some, completed_job_range, candidate_ranges, check_range, next_contiguous_checkpoint_target,
}
use rust_evm_indexer.Ledger.Checkpoint.Sorted.{Later, Sorted, sort-All, sort-Any, sort-Sorted}

-- A range holds a block.
abbrev pub Holds : ℤ → ℤ × ℤ → Type 0
Holds block range = (range.0 ≤ℤ block) × (block ≤ℤ range.1)

All-push :
    (P : ℤ × ℤ → Type 0) (found : Option (ℤ × ℤ)) (ranges : List (ℤ × ℤ))
    → All P (push_some found ranges)
    → ((range : ℤ × ℤ) → found ≡ some range → P range) × All P ranges
All-push P none ranges all = (λ range e. absurd (cc), all)
All-push P (some other) ranges (p, all) =
    (λ range e. let same : other ≡ range = cc in subst P same p, all)

-- A range does not lead past a target: it ends there or before, or leaves a gap behind it.
abbrev pub Stops : ℤ → ℤ × ℤ → Type 0
Stops target range = (range.1 ≤ℤ target) ⊎ (succ_sat target <ℤ range.0)

-- One round of the loop.
abbrev step_target : ℤ → ℤ × ℤ → ℤ
step_target target range =
    if leb_ℤ range.0 (succ_sat target) && ltb_ℤ target range.1 then range.1 else target

step_le : (target : ℤ) (range : ℤ × ℤ) → target ≤ℤ step_target target range
step_le target (from, to) = ground arith

step_reaches :
    (target : ℤ) (range : ℤ × ℤ)
    → leb_ℤ range.0 (succ_sat target) ≡ true
    → range.1 ≤ℤ step_target target range
step_reaches target (from, to) near = ground arith

step-Holds :
    (target : ℤ) (range : ℤ × ℤ) (block : ℤ)
    → target <ℤ block
    → block ≤ℤ step_target target range
    → Holds block range
unfolding ◌+ℤ◌
step-Holds target (from, to) block above below = ground arith

extend_le : (target : ℤ) (rs : List (ℤ × ℤ)) → target ≤ℤ extend_target target rs
unfolding extend_target
extend_le target [] = omega arith
extend_le target (r ∷ rs) = omega (arith, step_le target r, extend_le (step_target target r) rs)

-- Every block that the loop passes lies in a range.
extend-Holds :
    (target : ℤ) (rs : List (ℤ × ℤ)) (block : ℤ)
    → target <ℤ block
    → block ≤ℤ extend_target target rs
    → Any (Holds block) rs
unfolding extend_target
extend-Holds target [] block above below = omega arith
extend-Holds target (r ∷ rs) block above below =
    elim (Bool-cases (leb_ℤ block (step_target target r))) [
      | inl here ↦ inl (step-Holds target r block above (ground arith))
      | inr later ↦ inr (extend-Holds (step_target target r) rs block (ground arith) below)
    ]

-- Behind a gap the loop stands still.
extend_gap :
    (target : ℤ) (rs : List (ℤ × ℤ)) (from : ℤ)
    → succ_sat target <ℤ from
    → All (Later from) rs
    → extend_target target rs ≡ target
unfolding extend_target
extend_gap target [] from gap all = refl
extend_gap target ((f, t) ∷ rs) from gap all =
    let here : from ≤ℤ f = all.0 in
    let stay : leb_ℤ f (succ_sat target) ≡ false = ground arith in
    rw stay (extend_gap target rs from gap all.1)

-- On sorted ranges, none leads past the target that is reached.
extend-Stops :
    (target : ℤ) (rs : List (ℤ × ℤ)) → Sorted rs → All (Stops (extend_target target rs)) rs
unfolding extend_target
extend-Stops target [] sorted = tt
extend-Stops target ((f, t) ∷ rs) sorted = (
  elim (Bool-cases (leb_ℤ f (succ_sat target))) [
    | inl near ↦
        let reached = step_reaches target (f, t) near in
        let far = extend_le (step_target target (f, t)) rs in inl (omega (arith, reached, far))
    | inr gap ↦
        let apart : succ_sat target <ℤ f = ground arith in
        inr (
          subst (λ n. succ_sat n <ℤ f)
            (sym (extend_gap target ((f, t) ∷ rs) f apart (omega arith, sorted.0))) apart)
  ],
  extend-Stops (step_target target (f, t)) rs sorted.1,
)

ltb_lem : (a b : ℤ) → ltb_ℤ a b ≡ true → a <ℤ b
ltb_lem a b h = ground arith

stay_lem : (a b : ℤ) → ltb_ℤ a b ≡ false → a ≤ℤ b → b ≡ a
stay_lem a b h le = eq_of_parts b a (ground arith)

-- A succeeded ingestion of the source whose range has a property.
abbrev pub Ingested : ℕ → (ℤ × ℤ → Type 0) → JobRow → Type 0
Ingested source_id P job =
    (job.source_id ≡ some source_id)
    × (job.job_type ≡ ingest_range)
    × (job.status ≡ succeeded)
    × (range : ℤ × ℤ) × (job.from_block ≡ some range.0)
    × (job.to_block ≡ some range.1)
    × P range

-- The range of a succeeded ingestion of the source.
abbrev pub IsIngestion : ℕ → ℤ × ℤ → JobRow → Type 0
IsIngestion source_id range job =
    (job.source_id ≡ some source_id)
    × (job.job_type ≡ ingest_range)
    × (job.status ≡ succeeded)
    × (job.from_block ≡ some range.0)
    × (job.to_block ≡ some range.1)

-- A job that is a succeeded ingestion of the source does not lead past a target.
abbrev pub JobStops : ℕ → ℤ → JobRow → Type 0
JobStops source_id target job =
    (range : ℤ × ℤ) → IsIngestion source_id range job → Stops target range

completed_job_range_found :
    (source_id : ℕ) (frontier : ℤ) (job : JobRow) (range : ℤ × ℤ)
    → IsIngestion source_id range job
    → (completed_job_range source_id frontier job ≡ some range) ⊎ (range.1 ≤ℤ frontier)
unfolding completed_job_range
completed_job_range_found source_id frontier job (from, to) (same, ingest, done, first, last) =
    let self : (source_id == source_id) ≡ true = ground arith in
    elim (Bool-cases (ltb_ℤ frontier to)) [
      | inl past ↦ inl (rw (same, ingest, done, first, last, past, self) refl)
      | inr behind ↦ inr (ground arith)
    ]

-- Where the ranges that count do not lead past a target, no ingestion does.
counted-JobStops :
    (source_id : ℕ) (frontier target : ℤ) (jobs : List JobRow)
    → frontier ≤ℤ target
    → All (Stops target) (filter_map (completed_job_range source_id frontier) jobs)
    → All (JobStops source_id target) jobs
counted-JobStops source_id frontier target [] h stops = tt
counted-JobStops source_id frontier target (job ∷ jobs) h stops =
    let (here, later) =
      All-push (Stops target) (completed_job_range source_id frontier job) _ stops in
    (
      λ range ingestion. elim (completed_job_range_found source_id frontier job range ingestion) [
        | inl counts ↦ here range counts
        | inr behind ↦ inl (omega (arith, behind, h))
      ],
      counted-JobStops source_id frontier target jobs h later,
    )

completed_job_range_lem :
    (source_id : ℕ) (frontier : ℤ) (job : JobRow) (range : ℤ × ℤ)
    → completed_job_range source_id frontier job ≡ some range
    → (job.source_id ≡ some source_id)
      × (job.job_type ≡ ingest_range)
      × (job.status ≡ succeeded)
      × (job.from_block ≡ some range.0)
      × (job.to_block ≡ some range.1)
unfolding completed_job_range
completed_job_range_lem source_id frontier job range e = ground (arith, e)

Any-push :
    (P : ℤ × ℤ → Type 0) (found : Option (ℤ × ℤ)) (ranges : List (ℤ × ℤ))
    → Any P (push_some found ranges)
    → ((range : ℤ × ℤ) × (found ≡ some range) × P range) ⊎ Any P ranges
Any-push P none ranges m = inr m
Any-push P (some range) ranges (inl p) = inl (range, refl, p)
Any-push P (some range) ranges (inr m) = inr m

filter_map-Ingested :
    (P : ℤ × ℤ → Type 0) (source_id : ℕ) (frontier : ℤ) (jobs : List JobRow)
    → Any P (filter_map (completed_job_range source_id frontier) jobs)
    → Any (Ingested source_id P) jobs
filter_map-Ingested P source_id frontier [] m = m
filter_map-Ingested P source_id frontier (job ∷ jobs) m =
    elim (Any-push P (completed_job_range source_id frontier job) _ m) [
      | inr rest ↦ inr (filter_map-Ingested P source_id frontier jobs rest)
      | inl (range, here, p) ↦
          let facts = completed_job_range_lem source_id frontier job range here in
          inl (facts.0, facts.1, facts.2, range, facts.3, facts.4, p)
    ]

Any-append : (P : ℤ × ℤ → Type 0) (xs ys : List (ℤ × ℤ)) → Any P (xs ++ ys) → Any P xs ⊎ Any P ys
Any-append P [] ys m = inr m
Any-append P (x ∷ xs) ys (inl p) = inl (inl p)
Any-append P (x ∷ xs) ys (inr m) = elim (Any-append P xs ys m) [
  | inl here ↦ inl (inr here)
  | inr there ↦ inr there
]

module _ (source : SourceRow) (completed_range : Option (ℤ × ℤ)) (checkpoints : List CheckpointRow)
    (jobs : List JobRow) where
  abbrev pub frontier : ℤ
  frontier = frontier_of source (checkpoint_of source.id checkpoints)

  -- The blocks behind the frontier are done up to a target, and neither a succeeded ingestion of
  -- the source nor the range just completed leads past it.
  abbrev pub IsReached : ℤ → Type 0
  IsReached target =
      ((block : ℤ)
        → frontier <ℤ block
        → block ≤ℤ target
        → Any (Ingested source.id (Holds block)) jobs
          ⊎ Any (Holds block) (option_list completed_range))
      × All (JobStops source.id target) jobs
      × All (Stops target) (option_list completed_range)

  abbrev pub IsTarget : Option ℤ → Type 0
  IsTarget none = IsReached frontier
  IsTarget (some target) = (frontier <ℤ target) × IsReached target

  loop-IsReached : IsReached (
      extend_target frontier
        (sort_ranges (candidate_ranges source completed_range checkpoints jobs)))
  unfolding candidate_ranges
  loop-IsReached =
      let ranges = candidate_ranges source completed_range checkpoints jobs in
      let counted = filter_map (completed_job_range source.id frontier) jobs in
      let target = extend_target frontier (sort_ranges ranges) in
      let (by_jobs, by_completed) =
        All-split (Stops target) (sort_ranges counted) (option_list completed_range) (
          sort-All (Stops target) ranges
            (extend-Stops frontier (sort_ranges ranges) (sort-Sorted ranges))) in
      (
        λ block above below.
            elim (Any-append (Holds block) (sort_ranges counted) (option_list completed_range) (
              sort-Any (Holds block) ranges
                (extend-Holds frontier (sort_ranges ranges) block above below))) [
                  | inl ingested ↦ inl (
                      filter_map-Ingested (Holds block) source.id frontier jobs
                        (sort-Any (Holds block) counted ingested))
                  | inr completed ↦ inr completed
                ],
        counted-JobStops source.id frontier target jobs (extend_le frontier (sort_ranges ranges))
            (sort-All (Stops target) counted by_jobs),
        by_completed,
      )

  -- A target that is found lies past the frontier, each block from the frontier to it lies in the
  -- range of a succeeded ingestion of the source or in the range just completed, and no succeeded
  -- ingestion of the source, nor the range just completed, leads further without a gap; when none
  -- is found, none of them leads past the frontier.
  pub next_contiguous_checkpoint_target-IsTarget :
      (r : Option ℤ)
      → next_contiguous_checkpoint_target source completed_range checkpoints jobs ≡ ok r
      → IsTarget r
  unfolding next_contiguous_checkpoint_target
  next_contiguous_checkpoint_target-IsTarget r done =
      let (_, checked, done1) = >>=-eq-ok (check_range completed_range) _ done in
      let target =
        extend_target frontier
          (sort_ranges (candidate_ranges source completed_range checkpoints jobs)) in
      let past =
        extend_le frontier
          (sort_ranges (candidate_ranges source completed_range checkpoints jobs)) in
      let found : (if ltb_ℤ frontier target then some target else none) ≡ r = ok_inj done1 in
      elim (Bool-cases (ltb_ℤ frontier target)) [
        | inl further ↦
            let is_some_target : some target ≡ r = rw further at found in
            subst IsTarget is_some_target (ltb_lem frontier target further, loop-IsReached)
        | inr still ↦
            let is_none : none ≡ r = rw still at found in
            subst IsTarget is_none
              (subst IsReached (stay_lem frontier target still past) loop-IsReached)
      ]
