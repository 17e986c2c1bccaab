-- ===== src/Trail/Live.antt =====
-- Where trails come from (site/src/canvas-map/trail-model.js): the hub's history (`decodeTrail`),
-- the positions seen live (`observeLive`), and the two joined (`mergeTrail`). Points stand oldest
-- first. Times are whole unix seconds; a stay of the server's is no longer than the time it ends at.
pub mod Ends
pub mod Decode
pub mod Merge
pub mod Observe
use ha_osrs_map.Base.{
  ℕ, suc, ◌+◌, ◌-◌, ◌%◌, max, Bool, true, false, ◌&&◌, not, Option, none, some, List, [], ◌∷◌, ◌++◌,
  ltb, leb, nat_beq, length, last?, drop, if◌then◌else◌,
}
use ha_osrs_map.Trail.Point.{Via, Point, gap_s, idle_s}
use ha_osrs_map.Trail.Model.{bool_beq}

abbrev pub live_max_points : ℕ
live_max_points = 240

abbrev pub live_max_age_s : ℕ
live_max_age_s = 3600

abbrev pub marker_lag_s : ℕ
marker_lag_s = 15

abbrev pub y_offset : ℕ
y_offset = 1

-- The y of a row. To a `null` the offset can be added as to 0; to anything else that is no number it
-- cannot.
pub data StoredY : Type 0 where
  number : ℕ → StoredY
  null : StoredY
  no_number : StoredY

abbrev pub y_of : StoredY → Option ℕ
y_of (number y) = some y
y_of null = some 0
y_of no_number = none

-- A row of the server's trail. Any other field that is no number is `none`; the last three have
-- defaults.
pub record Row : Type 0 where
  pub x : Option ℕ
  pub y : StoredY
  pub plane : Option ℕ
  pub time : Option ℕ
  pub dwell : Option ℕ
  pub flags : Option ℕ
  pub via : Option ℕ

-- A stretch of a trail on one world: from which row on, and which world.
abbrev pub WorldChange : Type 0
WorldChange = ℕ × ℕ

-- The bare list of an older server, or the object of a newer one.
pub data RawTrail : Type 0 where
  bare : List Row → RawTrail
  object : List Row → List WorldChange → Option ℕ → Option ℕ → RawTrail

pub record Decoded : Type 0 where
  pub points : List Point
  pub step : ℕ
  pub as_of : Option ℕ

abbrev pub or_default {ℓ} : {A : Type ℓ} → Option A → A → A
or_default none d = d
or_default (some a) d = a

-- `if (via) point.via = VIA[via] ?? VIA_NOT_KNOWN`
unfoldable pub via_of_code : ℕ → Option Via
via_of_code n =
    if nat_beq n 0
    then none
    else if nat_beq n 1
    then some Via.move
    else if nat_beq n 2
    then some Via.entrance
    else if nat_beq n 3
    then some Via.house
    else if nat_beq n 4
    then some Via.teleport
    else if nat_beq n 5
    then some Via.gap
    else if nat_beq n 6
    then some Via.instance
    else some Via.other

-- The inner `while`: the changes that are left at row `index`, and the world there.
unfoldable pub advance_worlds : ℕ → List WorldChange → Option ℕ → List WorldChange × Option ℕ
advance_worlds index [] world = ([], world)
advance_worlds index ((from, next) ∷ worlds) world =
    let rest = advance_worlds index worlds (some next) in
    if leb from index then rest else ((from, next) ∷ worlds, world)

unfoldable pub decode_point : Row → Option ℕ → ℕ → ℕ → ℕ → ℕ → Point
decode_point row world x y plane time = record {
  x = x;
  y = y + y_offset;
  plane = plane;
  t0 = time - or_default row.dwell 0;
  t1 = time;
  boat = nat_beq (or_default row.flags 0 % 2) 1;
  world = world;
  via = via_of_code (or_default row.via 0);
  live = false;
}

-- A row with a field that is no number is left out.
unfoldable pub decode_row : Row → Option ℕ → Option ℕ → Option ℕ → Option ℕ → Option ℕ → List Point
decode_row row world (some x) (some y) (some plane) (some time) =
    decode_point row world x y plane time ∷ []
decode_row row world _ _ _ _ = []

unfoldable pub decode_rows : ℕ → List Row → List WorldChange → Option ℕ → List Point
decode_rows index [] worlds world = []
decode_rows index (row ∷ rows) worlds world =
    let (left, here) = advance_worlds index worlds world in
    decode_row row here row.x (y_of row.y) row.plane row.time
    ++ decode_rows (suc index) rows left here

abbrev pub step_or_idle : Option ℕ → ℕ
step_or_idle none = idle_s
step_or_idle (some step) = if nat_beq step 0 then idle_s else step

unfoldable pub decode_trail : RawTrail → Decoded
decode_trail (bare rows) = record {
  points = decode_rows 0 rows [] none;
  step = idle_s;
  as_of = none;
}
decode_trail (object rows worlds step as_of) = record {
  points = decode_rows 0 rows worlds none;
  step = step_or_idle step;
  as_of = as_of;
}

unfoldable pub same_tile : Point → Point → Bool
same_tile a b = nat_beq a.x b.x && nat_beq a.y b.y && nat_beq a.plane b.plane

unfoldable pub same_place : Point → Point → Bool
unfolding same_tile
same_place a b = same_tile a b && bool_beq a.boat b.boat

-- `xs[xs.length - 1] = f(...)`
abbrev pub map_last {ℓ} : {A : Type ℓ} → (A → A) → List A → List A
map_last f [] = []
map_last f (x ∷ []) = f x ∷ []
map_last f (x ∷ y ∷ xs) = x ∷ map_last f (y ∷ xs)

abbrev pub stay_until : ℕ → Point → Point
stay_until t p = record p { t1 = max p.t1 t }

-- What is seen of a player at one time, as a point of no length.
pub record Sighting : Type 0 where
  pub x : ℕ
  pub y : ℕ
  pub plane : ℕ
  pub boat : Bool
  pub world : Option ℕ

abbrev pub live_point : Sighting → ℕ → Point
live_point s time = record {
  x = s.x;
  y = s.y;
  plane = s.plane;
  t0 = time;
  t1 = time;
  boat = s.boat;
  world = s.world;
  via = none;
  live = true;
}

-- The `while` of `observeLive`, over the points that the first bound leaves.
unfoldable pub drop_old : ℕ → ℕ → List Point → List Point
drop_old now max_age [] = []
drop_old now max_age (p ∷ []) = p ∷ []
drop_old now max_age (p ∷ q ∷ points) =
    let rest = drop_old now max_age (q ∷ points) in
    if ltb (p.t1 + max_age) now then rest else p ∷ q ∷ points

unfoldable pub trim : ℕ → ℕ → ℕ → List Point → List Point
trim now max_points max_age buffer = drop_old now max_age (drop (length buffer - max_points) buffer)

-- The buffer with a sighting noted, before it is trimmed, and whether a point was added.
unfoldable pub note_sighting : List Point → Option Point → Sighting → ℕ → Bool → List Point × Bool
note_sighting buffer none s now fresh = (buffer ++ live_point s now ∷ [], true)
note_sighting buffer (some last) s now fresh =
    if not fresh && same_place last (live_point s now)
    then (map_last (stay_until now) buffer, false)
    else (buffer ++ live_point s (max now last.t1) ∷ [], true)

unfoldable pub observe_live : List Point → Sighting → ℕ → ℕ → ℕ → Bool → List Point × Bool
observe_live buffer s now max_points max_age fresh =
    let noted = note_sighting buffer (last? buffer) s now fresh in
    (trim now max_points max_age noted.0, noted.1)

-- `append` of `mergeTrail`, to a trail whose last point is `last`.
unfoldable pub append_point : List Point → Option Point → Point → Bool → List Point
append_point merged none p continues = merged ++ record p { t1 = max p.t1 p.t0 } ∷ []
append_point merged (some last) p continues =
    let t0 = max p.t0 last.t1 in
    if continues && same_place last p
    then map_last (stay_until p.t1) merged
    else merged ++ record p { t0 = t0; t1 = max p.t1 t0 } ∷ []

-- The default of `continues`: the point begins within a gap of the last one's end.
abbrev pub within_gap : Option Point → Point → Bool
within_gap none p = false
within_gap (some last) p = leb (p.t0 - last.t1) gap_s

unfoldable pub is_news : Option Point → ℕ → Point → Bool
is_news none as_of p = true
is_news (some newest) as_of p = leb as_of p.t0

-- A sighting cut to the span that begins at `from`; `none` when it ended before.
unfoldable pub clip : Option ℕ → Point → Option Point
clip none p = some p
clip (some from) p =
    if ltb p.t1 from then none else if ltb p.t0 from then some (record p { t0 = from }) else some p

unfoldable pub add_seen : Option Point → ℕ → List Point → Option Point → List Point
add_seen newest as_of merged none = merged
add_seen newest as_of merged (some p) =
    if is_news newest as_of p
    then append_point merged (last? merged) p (within_gap (last? merged) p)
    else merged

unfoldable pub merge_live : Option Point → ℕ → Option ℕ → List Point → List Point → List Point
merge_live newest as_of from merged [] = merged
merge_live newest as_of from merged (seen ∷ live) =
    merge_live newest as_of from (add_seen newest as_of merged (clip from seen)) live

-- The marker is itself behind the history.
unfoldable pub is_behind : Option Point → ℕ → Option Point → Point → Bool
is_behind (some newest) as_of (some arrived) marker =
    same_place arrived marker
    && not (is_news (some newest) as_of arrived)
    && not (same_place newest marker)
    && leb arrived.t0 (newest.t1 + marker_lag_s)
is_behind _ as_of _ marker = false

unfoldable pub merge_head : Option Point → ℕ → Option Point → List Point → Option Point → List Point
merge_head newest as_of arrived merged none = merged
merge_head newest as_of arrived merged (some marker) =
    if is_behind newest as_of arrived marker
    then merged
    else append_point merged (last? merged) marker true

-- `head` is the marker as a point of no length, `live_point` of the sighting and the time now.
unfoldable pub merge_trail : List Point → List Point → Option Point → ℕ → Option ℕ → List Point
merge_trail history live head as_of from =
    let newest = last? history in
    merge_head newest as_of (last? live) (merge_live newest as_of from history live) head
