-- ===== src/Trail/Time.antt =====
-- Where a player was at a time, and when something next happens on a trail: `indexAt`,
-- `positionAt` and `nextChangeAfter` of site/src/canvas-map/trail-model.js, and `nextHop` of
-- site/src/canvas-map/trail-layer.js.
pub mod Order
pub mod Search
pub mod Place
pub mod Change
use ha_osrs_map.Base.{
  ℕ, zero, suc, ◌+◌, ◌-◌, ◌*◌, ◌/◌, max, Bool, true, false, ◌||◌, not, Option, none, some, List, [],
  ◌∷◌, ltb, leb, length, get_elem?, if◌then◌else◌,
}
use ha_osrs_map.Trail.Point.{Kind, Point, is_next_room}
use ha_osrs_map.Trail.Model.{Jump, TrailModel, connected_at}

-- `points[i].t0 <= t`
abbrev pub reached : List Point → ℕ → ℕ → Bool
reached points t i = elim (get_elem? points i) [ none ↦ false | some p ↦ leb p.t0 t ]

-- The loop of `indexAt`. `end` is the source's `high + 1`, and `none` its -1.
unfoldable pub search : List Point → ℕ → ℕ → ℕ → ℕ → Option ℕ → Option ℕ
search points t zero low end found = found
search points t (suc fuel) low end found =
    let middle = (low + end - 1) / 2 in
    let hit = reached points t middle in
    let rest =
      search points t fuel (if hit then middle + 1 else low) (if hit then end else middle)
        (if hit then some middle else found) in
    if ltb low end then rest else found

-- Every round makes the span shorter, so one round for each point and one more are enough.
unfoldable pub index_at : List Point → ℕ → Option ℕ
index_at points t = search points t (length points + 1) 0 (length points) none

-- A place on the way: `x` and `y` are counted in parts of a tile, `den` parts to the tile, and
-- `frac` is `num` of `den`.
pub record Position : Type 0 where
  pub index : ℕ
  pub num : ℕ
  pub den : ℕ
  pub kind : Option Kind
  pub x : ℕ
  pub y : ℕ
  pub plane : ℕ
  pub moving : Bool

-- `from + (to - from) * along` in parts, for `along` = `num` of `den`.
unfoldable pub between : ℕ → ℕ → ℕ → ℕ → ℕ
between from to num den = from * den + (to - from) * num - (from - to) * num

abbrev pub standing : ℕ → Point → Position
standing index p = record {
  index = index;
  num = 0;
  den = 1;
  kind = none;
  x = p.x;
  y = p.y;
  plane = p.plane;
  moving = false;
}

-- The source's smallest denominator, 1e-9, is met only where two points share a time; with whole
-- seconds any other denominator is at least 1.
unfoldable pub under_way : List Kind → ℕ → Point → Point → ℕ → Position
under_way kinds index p next t =
    let num = t - p.t1 in
    let den = max (next.t0 - p.t1) 1 in
    let along = if connected_at kinds index then num else 0 in
    record {
      index = index;
      num = num;
      den = den;
      kind = get_elem? kinds index;
      x = between p.x next.x along den;
      y = between p.y next.y along den;
      plane = if ltb along den then p.plane else next.plane;
      moving = true;
    }

-- `positionAt` at a point and the one after it.
unfoldable pub place_step : List Kind → ℕ → ℕ → Option Point → Option Point → Option Position
place_step kinds t index none next = none
place_step kinds t index (some p) none = some (standing index p)
place_step kinds t index (some p) (some next) =
    if leb t p.t1 then some (standing index p) else some (under_way kinds index p next t)

unfoldable pub place_from : TrailModel → ℕ → Option ℕ → Option Position
place_from model t none = none
place_from model t (some index) =
    place_step model.kinds t index (get_elem? model.points index)
      (get_elem? model.points (suc index))

unfoldable pub position_at : TrailModel → ℕ → Option Position
position_at model t = place_from model t (index_at model.points t)

-- A step in which nothing happens until it is over: not drawn as a line, or longer than a gap.
abbrev pub skips : TrailModel → ℕ → Point → Point → Bool
skips model index p next =
    not (connected_at model.kinds index) || ltb model.gap_limit (next.t0 - p.t1)

-- `nextChangeAfter` at the last point reached and the one after it.
unfoldable pub change_step : TrailModel → ℕ → ℕ → Option Point → Option Point → Option ℕ
change_step model t index none next = none
change_step model t index (some p) none = none
change_step model t index (some p) (some next) =
    if leb t p.t1 then some p.t1 else if skips model index p next then some next.t0 else some t

unfoldable pub change_from : TrailModel → ℕ → Point → Option ℕ → Option ℕ
change_from model t first none = some first.t0
change_from model t first (some index) =
    change_step model t index (get_elem? model.points index) (get_elem? model.points (suc index))

unfoldable pub change_after : TrailModel → ℕ → Option Point → Option ℕ
change_after model t none = none
change_after model t (some first) = change_from model t first (index_at model.points t)

unfoldable pub next_change_after : TrailModel → ℕ → Option ℕ
next_change_after model t = change_after model t (get_elem? model.points 0)

-- A hop: when the player left, when they landed, and what it was.
pub record Hop : Type 0 where
  pub leave : ℕ
  pub land : ℕ
  pub kind : Kind

-- A jump to somewhere else, from the stay at `p` to the one at `q`: past the span, within it, or
-- (`rest`) before it.
unfoldable pub hop_step : ℕ → ℕ → Kind → Option Point → Option Point → Option Hop → Option Hop
hop_step from to kind none q rest = none
hop_step from to kind (some p) none rest = none
hop_step from to kind (some p) (some q) rest =
    if ltb to q.t0
    then none
    else if ltb from q.t0
    then some (record { leave = p.t1; land = q.t0; kind = kind })
    else rest

-- The loop of `nextHop` over the jumps.
unfoldable pub hop_among : List Point → ℕ → ℕ → List Jump → Option Hop
hop_among points from to [] = none
hop_among points from to (j ∷ jumps) =
    let rest = hop_among points from to jumps in
    if is_next_room j.kind
    then rest
    else hop_step from to j.kind (get_elem? points j.from) (get_elem? points (suc j.from)) rest

unfoldable pub next_hop : TrailModel → ℕ → ℕ → Option Hop
next_hop model from to = hop_among model.points from to model.jumps
