-- ===== src/Trail/Model.antt =====
-- `buildTrailModel` of site/src/canvas-map/trail-model.js: a trail's steps, and the runs and jumps
-- they make. The loops run over the indices of the points, as in the source.
pub mod Chain
pub mod Coverage
use ha_osrs_map.Base.{
  ℕ, zero, suc, ◌-◌, max, Bool, true, false, ◌||◌, not, Option, none, some, List, [], ◌∷◌, ◌++◌,
  ltb, nat_beq, length, get_elem?, last?, if◌then◌else◌,
}
use ha_osrs_map.Trail.Point.{Kind, Point, gap_s, classify_step, is_connected}

-- A stretch drawn as one line, from point `i0` to point `i1`.
pub record Run : Type 0 where
  pub i0 : ℕ
  pub i1 : ℕ
  pub sail : Bool

pub record Jump : Type 0 where
  pub from : ℕ
  pub kind : Kind

abbrev pub run : ℕ → ℕ → Bool → Run
run i0 i1 sail = record { i0 = i0; i1 = i1; sail = sail }

abbrev pub jump : ℕ → Kind → Jump
jump from kind = record { from = from; kind = kind }

pub record Parts : Type 0 where
  pub runs : List Run
  pub jumps : List Jump

pub record TrailModel : Type 0 where
  pub points : List Point
  pub kinds : List Kind
  pub runs : List Run
  pub jumps : List Jump
  pub gap_limit : ℕ
  pub t_min : Option ℕ
  pub t_max : Option ℕ

-- The kind of the step from each point to the next.
unfoldable pub step_kinds : List Point → ℕ → List Kind
step_kinds [] limit = []
step_kinds (a ∷ []) limit = []
step_kinds (a ∷ b ∷ points) limit = classify_step a b limit ∷ step_kinds (b ∷ points) limit

abbrev pub is_sail : Kind → Bool
is_sail Kind.sail = true
is_sail _ = false

-- `kinds[i] === "sail"` and `CONNECTED.has(kinds[i])`: false past the end.
abbrev pub sail_at : List Kind → ℕ → Bool
sail_at kinds i = elim (get_elem? kinds i) [ none ↦ false | some kind ↦ is_sail kind ]

abbrev pub connected_at : List Kind → ℕ → Bool
connected_at kinds i = elim (get_elem? kinds i) [ none ↦ false | some kind ↦ is_connected kind ]

abbrev pub is_undefined {ℓ} : {A : Type ℓ} → Option A → Bool
is_undefined none = true
is_undefined (some a) = false

abbrev pub bool_beq : Bool → Bool → Bool
bool_beq true b = b
bool_beq false b = not b

-- A run ends at point `j`: the chain does, or sailing starts or stops there.
unfoldable pub cuts : List Kind → ℕ → ℕ → ℕ → Bool
cuts kinds i j from = nat_beq j i || not (bool_beq (sail_at kinds j) (sail_at kinds from))

-- The inner loop, `rounds` rounds from `j` on, in a run that began at `from`.
unfoldable pub split_chain : List Kind → ℕ → ℕ → ℕ → ℕ → List Run
split_chain kinds i zero j from = []
split_chain kinds i (suc rounds) j from =
    let cut = cuts kinds i j from in
    let rest = split_chain kinds i rounds (suc j) (if cut then j else from) in
    if cut then run from j (sail_at kinds from) ∷ rest else rest

unfoldable pub close_chain : List Kind → ℕ → ℕ → List Run
close_chain kinds start i =
    if nat_beq i start || is_undefined (get_elem? kinds start)
    then run start i false ∷ []
    else split_chain kinds i (i - start) (suc start) start

-- What `jumps.push` adds at the end of a chain: nothing after the last point.
unfoldable pub jump_at : List Kind → ℕ → ℕ → List Jump
jump_at kinds n i =
    if ltb i (n - 1)
    then elim (get_elem? kinds i) [ none ↦ [] | some kind ↦ jump i kind ∷ [] ]
    else []

unfoldable pub chain_ends : List Kind → ℕ → ℕ → Bool
chain_ends kinds n i = nat_beq i (n - 1) || not (connected_at kinds i)

-- The outer loop, `rounds` rounds from point `i` on, in a chain that began at `start`.
unfoldable pub scan : List Kind → ℕ → ℕ → ℕ → ℕ → Parts
scan kinds n zero i start = record { runs = []; jumps = [] }
scan kinds n (suc rounds) i start =
    let ends = chain_ends kinds n i in
    let rest = scan kinds n rounds (suc i) (if ends then suc i else start) in
    if ends
    then record {
      runs = close_chain kinds start i ++ rest.runs;
      jumps = jump_at kinds n i ++ rest.jumps;
    }
    else rest

abbrev pub first_t0 : List Point → Option ℕ
first_t0 [] = none
first_t0 (p ∷ points) = some p.t0

abbrev pub last_t1 : List Point → Option ℕ
last_t1 points = elim (last? points) [ none ↦ none | some p ↦ some p.t1 ]

unfoldable pub build_trail_model : List Point → ℕ → TrailModel
build_trail_model points step =
    let limit = max gap_s step in
    let kinds = step_kinds points limit in
    let parts = scan kinds (length points) (length points) 0 0 in
    record {
      points = points;
      kinds = kinds;
      runs = parts.runs;
      jumps = parts.jumps;
      gap_limit = limit;
      t_min = first_t0 points;
      t_max = last_t1 points;
    }
