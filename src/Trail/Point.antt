-- ===== src/Trail/Point.antt =====
-- What a trail is made of (site/src/canvas-map/trail-model.js): the points, and what happened
-- between two of them. Coordinates are the site's, times are whole unix seconds.
use ha_osrs_map.Base.{
  ℕ, ◌+◌, ◌-◌, ◌*◌, max, Bool, true, false, ◌&&◌, ◌||◌, not, Option, none, some, ltb, leb, nat_beq,
  if◌then◌else◌,
}

-- The hub's labels, as `VIA` has them.
pub data Via : Type 0 where
  move entrance house teleport gap instance other : Via

pub data Kind : Type 0 where
  walk stairs sail entrance house instance teleport unknown : Kind

pub record Point : Type 0 where
  pub x : ℕ
  pub y : ℕ
  pub plane : ℕ
  pub t0 : ℕ
  pub t1 : ℕ
  pub boat : Bool
  pub world : Option ℕ
  pub via : Option Via
  pub live : Bool

pub data Band : Type 0 where
  instance surface under other : Band

abbrev pub instance_space_from_x : ℕ
instance_space_from_x = 6400

abbrev pub underground_offset : ℕ
underground_offset = 6400

abbrev pub idle_s : ℕ
idle_s = 60

abbrev pub uncertainty_s : ℕ
uncertainty_s = 20

abbrev pub slack_tiles : ℕ
slack_tiles = 8

abbrev pub gap_s : ℕ
gap_s = 300

-- Distances that a time allows are fractions in the source (RUN_TILES_PER_S is 2 / 0.6); here
-- they are counted in twelfths of a tile: 10/3 tiles a second are 40 twelfths.
abbrev pub run_speed : ℕ
run_speed = 40

abbrev pub boat_speed : ℕ
boat_speed = 2 * run_speed

abbrev pub twelfths : ℕ → ℕ
twelfths n = 12 * n

unfoldable pub in_instance_space : ℕ → Bool
in_instance_space x = leb instance_space_from_x x

unfoldable pub band : ℕ → ℕ → Band
unfolding in_instance_space
band x y =
    let stored_y = y - 1 in
    if in_instance_space x
    then Band.instance
    else if ltb stored_y 4224
    then Band.surface
    else if leb 8448 stored_y && ltb stored_y 10624
    then Band.under
    else Band.other

-- `|a - b|`
abbrev pub abs_diff : ℕ → ℕ → ℕ
abs_diff a b = a - b + (b - a)

-- The source's `shiftY` is `north - south`, one of which is 0: |a.y - (b.y + shiftY)|.
unfoldable pub distance : Point → Point → ℕ → ℕ → ℕ
distance a b north south = max (abs_diff a.x b.x) (abs_diff (a.y + south) (b.y + north))

unfoldable pub move_kind : Point → Point → Kind
move_kind a b =
    if a.boat && b.boat
    then Kind.sail
    else if not (nat_beq a.plane b.plane)
    then Kind.stairs
    else Kind.walk

abbrev pub is_instance : Band → Bool
is_instance Band.instance = true
is_instance _ = false

abbrev pub is_under : Band → Bool
is_under Band.under = true
is_under _ = false

abbrev pub is_surface : Band → Bool
is_surface Band.surface = true
is_surface _ = false

abbrev pub band_beq : Band → Band → Bool
band_beq Band.instance Band.instance = true
band_beq Band.surface Band.surface = true
band_beq Band.under Band.under = true
band_beq Band.other Band.other = true
band_beq _ _ = false

abbrev pub elapsed_between : Point → Point → ℕ
elapsed_between a b = max (b.t0 - a.t1) 1

abbrev pub speed_between : Point → Point → ℕ
speed_between a b = if a.boat && b.boat then boat_speed else run_speed

-- SURE_FRACTION is 3/4, of a speed that is a multiple of 4.
abbrev pub sure_reach : Point → Point → ℕ
sure_reach a b = 3 * (speed_between a b * elapsed_between a b) + 4 * twelfths slack_tiles

abbrev pub far_reach : Point → Point → ℕ
far_reach a b = speed_between a b * (elapsed_between a b + uncertainty_s) + twelfths slack_tiles

-- A step without a label between two parts of the map.
unfoldable pub classify_bands : Point → Point → Band → Band → Kind
classify_bands a b band_a band_b =
    if not (is_instance band_a)
      && not (is_instance band_b)
      && (is_under band_a || is_under band_b)
      && (is_surface band_a || is_surface band_b)
      && leb
          (4
            * twelfths (
                if is_under band_b
                then distance a b 0 underground_offset
                else distance a b underground_offset 0))
          (sure_reach a b)
    then Kind.entrance
    else Kind.teleport

-- A step without a label, judged by distance and time.
unfoldable pub classify_unlabelled : Point → Point → ℕ → Kind
classify_unlabelled a b limit =
    let band_a = band a.x a.y in
    let band_b = band b.x b.y in
    let far = distance a b 0 0 in
    if not (band_beq band_a band_b)
    then classify_bands a b band_a band_b
    else if ltb (far_reach a b) (twelfths far)
    then Kind.teleport
    else if ltb limit (elapsed_between a b) || ltb (sure_reach a b) (4 * twelfths far)
    then Kind.unknown
    else move_kind a b

unfoldable pub classify_via : Option Via → Point → Point → ℕ → Kind
classify_via (some Via.move) a b limit = move_kind a b
classify_via (some Via.entrance) a b limit = Kind.entrance
classify_via (some Via.house) a b limit = Kind.house
classify_via (some Via.instance) a b limit = Kind.instance
classify_via (some Via.teleport) a b limit = Kind.teleport
classify_via (some Via.gap) a b limit = Kind.unknown
classify_via (some Via.other) a b limit = Kind.unknown
classify_via none a b limit = classify_unlabelled a b limit

unfoldable pub classify_step : Point → Point → ℕ → Kind
classify_step a b limit = classify_via b.via a b limit

-- `CONNECTED.has(kind)`
abbrev pub is_connected : Kind → Bool
is_connected Kind.walk = true
is_connected Kind.stairs = true
is_connected Kind.sail = true
is_connected _ = false

-- `isNextRoom`
abbrev pub is_next_room : Kind → Bool
is_next_room Kind.house = true
is_next_room Kind.instance = true
is_next_room _ = false
