-- ===== src/Trail/Model/Coverage.antt =====
-- The runs and the jumps of a trail, taken together, are its steps.

use native.Mathlib.Decide.{dec_lt}
use ha_osrs_map.Base.{
  ℕ, zero, suc, ◌+◌, ◌-◌, ◌≤◌, ◌<◌, max, ◌≡◌, refl, inl, inr, true, false, not, List, [], ◌∷◌, ◌++◌,
  arith, length, get_elem?-none, Bool-cases,
}
use ha_osrs_map.Trail.Point.{Kind, Point, gap_s}
use ha_osrs_map.Trail.Model.Chain.{
  all_run_steps, connected_steps, broken_at, broken_steps, all_run_steps-append,
  connected_steps-add, AllConnected, close_chain_lem,
}
use ha_osrs_map.Trail.Model.{
  step_kinds, connected_at, close_chain, jump_at, chain_ends, scan, build_trail_model,
}

module _ (kinds : List Kind) where
  module _ (n : ℕ) (size : length kinds + 1 ≡ n) where
    chain_ends_lem : (i : ℕ) → i < n → chain_ends kinds n i ≡ not (connected_at kinds i)
    unfolding chain_ends
    chain_ends_lem i lt = ground (arith, get_elem?-none kinds i)

    jump_at_lem :
        (i : ℕ) → i < n → connected_at kinds i ≡ false → jump_at kinds n i ≡ broken_at kinds i
    unfolding jump_at
    jump_at_lem i lt h = ground (arith, get_elem?-none kinds i)

    connected-broken_at : (i : ℕ) → connected_at kinds i ≡ true → broken_at kinds i ≡ []
    connected-broken_at i h = ground arith

    past_end : (i : ℕ) → i + 1 ≡ n → connected_at kinds i ≡ false
    past_end i e = ground (arith, get_elem?-none kinds i)

    module _ (rounds i start : ℕ) where
      scan_end :
          chain_ends kinds n i ≡ true
          → scan kinds n (suc rounds) i start ≡ record {
            runs = close_chain kinds start i ++ (scan kinds n rounds (suc i) (suc i)).runs;
            jumps = jump_at kinds n i ++ (scan kinds n rounds (suc i) (suc i)).jumps;
          }
      unfolding scan
      scan_end c = rw c

      scan_keep :
          chain_ends kinds n i ≡ false
          → scan kinds n (suc rounds) i start ≡ scan kinds n rounds (suc i) start
      unfolding scan
      scan_keep c = rw c

    scan_nil : (i start : ℕ) → scan kinds n 0 i start ≡ record { runs = []; jumps = [] }
    unfolding scan
    scan_nil i start = refl

    scan-runs :
        (rounds i start : ℕ)
        → i + rounds ≡ n
        → start ≤ i
        → AllConnected kinds start i
        → all_run_steps (scan kinds n rounds i start).runs ≡ connected_steps kinds (n - start) start
    scan-runs zero i start e le conn = elim (dec_lt start i) [
      | yes lt ↦
          let h : connected_at kinds (i - 1) ≡ true = conn (i - 1) (omega arith) (omega arith) in
          cc (past_end (i - 1) (omega arith))
      | no ge ↦ let z : n - start ≡ 0 = omega arith in rw (scan_nil i start, z)
    ]
    scan-runs (suc rounds) i start e le conn = elim (Bool-cases (connected_at kinds i)) [
      | inl c ↦
          let ends : chain_ends kinds n i ≡ false = rw (chain_ends_lem i (omega arith), c) in
          rw (scan_keep rounds i start ends) (
            scan-runs rounds (suc i) start (omega arith) (omega arith) (λ k lo hi.
              elim (dec_lt k i) [
                | yes lt ↦ conn k lo lt
                | no ge ↦ let f : k ≡ i = omega arith in rw f c
              ]))
      | inr c ↦
          let ends : chain_ends kinds n i ≡ true = rw (chain_ends_lem i (omega arith), c) in
          let f : i - start + (1 + (n - suc i)) ≡ n - start = omega arith in
          let g : start + (i - start) ≡ i = omega arith in
          let g' : i + 1 ≡ suc i = omega arith in
          rw (
            scan_end rounds i start ends,
            all_run_steps-append (close_chain kinds start i)
                (scan kinds n rounds (suc i) (suc i)).runs,
            close_chain_lem kinds start i le (omega arith) conn,
            scan-runs rounds (suc i) (suc i) (omega arith) (omega arith)
                (λ k lo hi. absurd (omega arith)),
            ← f,
            connected_steps-add kinds (i - start) (1 + (n - suc i)) start,
            g,
            connected_steps-add kinds 1 (n - suc i) i,
            g',
            c,
          )
    ]

    scan-jumps :
        (rounds i start : ℕ)
        → i + rounds ≡ n
        → (scan kinds n rounds i start).jumps ≡ broken_steps kinds rounds i
    scan-jumps zero i start e = rw (scan_nil i start)
    scan-jumps (suc rounds) i start e = elim (Bool-cases (connected_at kinds i)) [
      | inl c ↦
          let ends : chain_ends kinds n i ≡ false = rw (chain_ends_lem i (omega arith), c) in
          rw (
            scan_keep rounds i start ends,
            scan-jumps rounds (suc i) start (omega arith),
            connected-broken_at i c,
          )
      | inr c ↦
          let ends : chain_ends kinds n i ≡ true = rw (chain_ends_lem i (omega arith), c) in
          rw (
            scan_end rounds i start ends,
            scan-jumps rounds (suc i) (suc i) (omega arith),
            jump_at_lem i (omega arith) c,
          )
    ]

length-step_kinds :
    (p : Point) (points : List Point) (limit : ℕ)
    → length (step_kinds (p ∷ points) limit) + 1 ≡ length (p ∷ points)
unfolding step_kinds
length-step_kinds p [] limit = omega arith
length-step_kinds p (q ∷ points) limit = omega (arith, length-step_kinds q points limit)

abbrev model_kinds : List Point → ℕ → List Kind
model_kinds points step = (build_trail_model points step).kinds

-- The lines of a trail, walked from point to point, are exactly its connected steps, each once
-- and in order, and each in a run that is marked as sailed just when the step was sailed.
pub runs-cover :
    (points : List Point) (step : ℕ)
    → all_run_steps (build_trail_model points step).runs
      ≡ connected_steps (model_kinds points step) (length points) 0
unfolding build_trail_model step_kinds scan
runs-cover [] step = refl
runs-cover (p ∷ points) step =
    let z : length (p ∷ points) - 0 ≡ length (p ∷ points) = omega arith in
    rw z at (
      scan-runs kinds (length (p ∷ points)) (length-step_kinds p points limit) (length (p ∷ points))
        0 0 (omega arith) (omega arith) none_before)
  where
    limit : ℕ
    limit = max gap_s step

    kinds : List Kind
    kinds = step_kinds (p ∷ points) limit

    none_before : AllConnected kinds 0 0
    none_before = λ k lo hi. absurd (omega arith)

-- The jumps of a trail are exactly its steps that are not connected, each once, in order and with
-- what the step was.
pub jumps-cover :
    (points : List Point) (step : ℕ)
    → (build_trail_model points step).jumps
      ≡ broken_steps (model_kinds points step) (length points) 0
unfolding build_trail_model step_kinds scan
jumps-cover [] step = refl
jumps-cover (p ∷ points) step =
    scan-jumps (step_kinds (p ∷ points) limit) (length (p ∷ points))
      (length-step_kinds p points limit) (length (p ∷ points)) 0 0 (omega arith)
  where
    limit : ℕ
    limit = max gap_s step
