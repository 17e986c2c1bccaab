-- ===== src/Trail/Model/Chain.antt =====
-- A chain of connected steps and the runs that it is split into (the inner loop of
-- `buildTrailModel`).
use mathlib.Core.List.{append_assoc, append-nil}
use native.Mathlib.Nat.{zero-add, add-zero, suc-add}
use native.Mathlib.Decide.{dec_lt}
use ha_osrs_map.Base.{
  ℕ, zero, suc, ◌+◌, ◌-◌, ◌≤◌, ◌<◌, ◌≡◌, ◌≢◌, refl, sym, ap, ◌∙◌, inl, inr, Bool, true, false, none,
  some, List, [], ◌∷◌, ◌++◌, arith, nat_beq, length, get_elem?, get_elem?-some, if◌then◌else◌,
  Bool-cases,
}
use ha_osrs_map.Trail.Point.{Kind, is_connected}
use ha_osrs_map.Trail.Model.{
  Run, Jump, jump, run, sail_at, connected_at, split_chain, close_chain, cuts,
}

-- A step that is drawn as part of a line: from which point, and whether it was sailed.
abbrev pub DrawnStep : Type 0
DrawnStep = ℕ × Bool

-- `count` steps from point `k` on.
abbrev pub steps_between : ℕ → ℕ → Bool → List DrawnStep
steps_between zero k sail = []
steps_between (suc count) k sail = (k, sail) ∷ steps_between count (suc k) sail

abbrev pub run_steps : Run → List DrawnStep
run_steps r = steps_between (r.i1 - r.i0) r.i0 r.sail

abbrev pub all_run_steps : List Run → List DrawnStep
all_run_steps [] = []
all_run_steps (r ∷ rs) = run_steps r ++ all_run_steps rs

-- Of the `count` steps from point `k` on: those that are connected, and those that are not.
abbrev pub connected_steps : List Kind → ℕ → ℕ → List DrawnStep
connected_steps kinds zero k = []
connected_steps kinds (suc count) k =
    let rest = connected_steps kinds count (suc k) in
    if connected_at kinds k then (k, sail_at kinds k) ∷ rest else rest

abbrev pub broken_at : List Kind → ℕ → List Jump
broken_at kinds k = elim (get_elem? kinds k) [
  | none ↦ []
  | some kind ↦ if is_connected kind then [] else jump k kind ∷ []
]

abbrev pub broken_steps : List Kind → ℕ → ℕ → List Jump
broken_steps kinds zero k = []
broken_steps kinds (suc count) k = broken_at kinds k ++ broken_steps kinds count (suc k)

pub all_run_steps-append :
    (rs ss : List Run) → all_run_steps (rs ++ ss) ≡ all_run_steps rs ++ all_run_steps ss
all_run_steps-append [] ss = refl
all_run_steps-append (r ∷ rs) ss =
    rw (all_run_steps-append rs ss) (sym (append_assoc (run_steps r) _ _))

steps_between-suc :
    (count k : ℕ) (sail : Bool)
    → steps_between (suc count) k sail ≡ steps_between count k sail ++ (k + count, sail) ∷ []
steps_between-suc zero k sail = ground arith
steps_between-suc (suc count) k sail = ground (arith, steps_between-suc count (suc k) sail)

pub connected_steps-add :
    (kinds : List Kind) (m n k : ℕ)
    → connected_steps kinds (m + n) k ≡ connected_steps kinds m k ++ connected_steps kinds n (k + m)
connected_steps-add kinds zero n k = rw (zero-add, add-zero)
connected_steps-add kinds (suc m) n k =
    let e : suc k + m ≡ k + suc m = omega arith in
    rw (suc-add, connected_steps-add kinds m n (suc k), e) (ground arith)

module _ (kinds : List Kind) where
  -- The steps from `start` up to point `i` are all connected.
  abbrev pub AllConnected : ℕ → ℕ → Type 0
  AllConnected start i = (k : ℕ) → start ≤ k → k < i → connected_at kinds k ≡ true

  connected_steps-suc :
      (count k : ℕ)
      → connected_at kinds (k + count) ≡ true
      → connected_steps kinds (suc count) k
        ≡ connected_steps kinds count k ++ (k + count, sail_at kinds (k + count)) ∷ []
  connected_steps-suc count k h =
      let e : suc count ≡ count + 1 = omega arith in
      ap (λ n. connected_steps kinds n k) e ∙ connected_steps-add kinds count 1 k ∙ rw h

  -- The steps so far of the run that is being walked.
  abbrev IsOpen : ℕ → ℕ → Type 0
  IsOpen from j =
      steps_between (j - from) from (sail_at kinds from) ≡ connected_steps kinds (j - from) from

  IsOpen-one : (j : ℕ) → connected_at kinds j ≡ true → IsOpen j (suc j)
  IsOpen-one j h = let e : suc j - j ≡ 1 = omega arith in rw (e, h)

  IsOpen-suc :
      (from j : ℕ)
      → from ≤ j
      → connected_at kinds j ≡ true
      → sail_at kinds j ≡ sail_at kinds from
      → IsOpen from j
      → IsOpen from (suc j)
  IsOpen-suc from j le h s open_run =
      let e : suc j - from ≡ suc (j - from) = omega arith in
      let f : from + (j - from) ≡ j = omega arith in
      rw (
        e,
        steps_between-suc (j - from) from (sail_at kinds from),
        connected_steps-suc (j - from) from (rw f h),
        f,
        open_run,
        s,
      )

  cuts-false :
      (i j from : ℕ)
      → cuts kinds i j from ≡ false
      → (j ≢ i) × (sail_at kinds j ≡ sail_at kinds from)
  unfolding cuts
  cuts-false i j from h = ground arith

  cuts_self : (i from : ℕ) → cuts kinds i i from ≡ true
  unfolding cuts
  cuts_self i from = ground arith

  split_chain_nil : (i j from : ℕ) → split_chain kinds i 0 j from ≡ []
  unfolding split_chain
  split_chain_nil i j from = refl

  module _ (i rounds j from : ℕ) where
    split_chain_cut :
        cuts kinds i j from ≡ true
        → split_chain kinds i (suc rounds) j from
          ≡ run from j (sail_at kinds from) ∷ split_chain kinds i rounds (suc j) j
    unfolding split_chain
    split_chain_cut c = rw c

    split_chain_keep :
        cuts kinds i j from ≡ false
        → split_chain kinds i (suc rounds) j from ≡ split_chain kinds i rounds (suc j) from
    unfolding split_chain
    split_chain_keep c = rw c

  -- From `j` on the loop closes the run that began at `from` and makes those up to `i`.
  split_chain_lem :
      (i rounds j from : ℕ)
      → j + rounds ≡ i
      → from < j
      → AllConnected from i
      → IsOpen from j
      → all_run_steps (split_chain kinds i (suc rounds) j from)
        ≡ connected_steps kinds (i - from) from
  split_chain_lem i zero j from e lt conn open_run =
      let f : j ≡ i = omega arith in
      let c : cuts kinds i j from ≡ true = rw f (cuts_self i from) in
      rw (split_chain_cut i 0 j from c, open_run, f)
        (rw (split_chain_nil i (suc i) i) (append-nil _))
  split_chain_lem i (suc rounds) j from e lt conn open_run =
      elim (Bool-cases (cuts kinds i j from)) [
        | inl c ↦
            let f : j - from + (i - j) ≡ i - from = omega arith in
            let g : from + (j - from) ≡ j = omega arith in
            let h : connected_at kinds j ≡ true = conn j (omega arith) (omega arith) in
            rw (
              split_chain_cut i (suc rounds) j from c,
              split_chain_lem i rounds (suc j) j (omega arith) (omega arith)
                  (λ k lo hi. conn k (omega arith) hi) (IsOpen-one j h),
              open_run,
              ← f,
              connected_steps-add kinds (j - from) (i - j) from,
              g,
            )
        | inr c ↦
            let (ne, s) = cuts-false i j from c in
            let h : connected_at kinds j ≡ true = conn j (omega arith) (omega arith) in
            rw (split_chain_keep i (suc rounds) j from c) (
              split_chain_lem i rounds (suc j) from (omega arith) (omega arith) conn
                (IsOpen-suc from j (omega arith) h s open_run))
      ]

  -- A chain of connected steps that ends at point `i` is drawn step by step, each once.
  pub close_chain_lem :
      (start i : ℕ)
      → start ≤ i
      → i ≤ length kinds
      → AllConnected start i
      → all_run_steps (close_chain kinds start i) ≡ connected_steps kinds (i - start) start
  unfolding close_chain
  close_chain_lem start i le hi conn = elim (dec_lt start i) [
    | yes lt ↦
        let (kind, d) = get_elem?-some kinds start (omega arith) in
        let r : i - start ≡ suc (i - suc start) = omega arith in
        let ne : nat_beq i start ≡ false = ground arith in
        rw (ne, d, r)
          (split_chain_lem i (i - suc start) (suc start) start (omega arith) (omega arith) conn
              (IsOpen-one start (conn start (omega arith) (omega arith)))
            ∙ rw r)
    | no ge ↦
        let f : i ≡ start = omega arith in
        let z : start - start ≡ 0 = omega arith in
        let b : nat_beq start start ≡ true = ground arith in rw (f, b, z)
  ]
