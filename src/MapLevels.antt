-- ===== src/MapLevels.antt =====
-- The terrain in zoom levels: site/src/canvas-map/map-levels.js. Tiles are numbered from 0, a zoom is
-- a fraction, and a y in map pixels, which goes down, is written as how far up it is.
use ha_osrs_map.Base.{
  ℕ, zero, suc, ◌+◌, ◌-◌, ◌*◌, ◌/◌, ◌%◌, ◌^◌, min, max, List, [], ◌∷◌, ◌++◌, if◌then◌else◌, ltb,
}
pub mod Fits
pub mod Tests

abbrev pub map_tile_size : ℕ
map_tile_size = 256

abbrev pub max_level : ℕ
max_level = 3

-- The loop of `levelForZoom`, which has at most `max_level` rounds, for a zoom of `num` in `den`.
unfoldable pub level_up : ℕ → ℕ → ℕ → ℕ → ℕ
level_up zero level num den = level
level_up (suc rounds) level num den =
    let higher = level_up rounds (level + 1) num den in
    if ltb (num * 2 ^ (level + 1)) den then higher else level

unfoldable pub level_for_zoom : ℕ → ℕ → ℕ
level_for_zoom num den = level_up max_level 0 num den

-- A square in map pixels: its left edge, how far up its top is, and its size.
pub record Square : Type 0 where
  pub x : ℕ
  pub up : ℕ
  pub size : ℕ

unfoldable pub level_tile_rect : ℕ → ℕ → ℕ → Square
level_tile_rect level x y =
    let span = 2 ^ level in
    record {
      x = x * span * map_tile_size;
      up = (y * span + span - 1) * map_tile_size;
      size = span * map_tile_size;
    }

-- A view in map tiles, without `right` and `bottom` themselves.
pub record View : Type 0 where
  pub left : ℕ
  pub right : ℕ
  pub bottom : ℕ
  pub top : ℕ

-- The inner loop: `rounds` tiles of a column, from `y` down.
unfoldable pub column : ℕ → ℕ → ℕ → List (ℕ × ℕ)
column zero x y = []
column (suc rounds) x y = (x, y) ∷ column rounds x (y - 1)

-- The outer loop: `rounds` columns from `x` on, each of `height` tiles.
unfoldable pub columns : ℕ → ℕ → ℕ → ℕ → List (ℕ × ℕ)
columns zero x height y = []
columns (suc rounds) x height y = column height x y ++ columns rounds (x + 1) height y

unfoldable pub level_tiles_in_view : ℕ → View → List (ℕ × ℕ)
level_tiles_in_view level view =
    let span = 2 ^ level in
    let first = view.left / span in
    let last = (view.right - 1) / span in
    let top = view.top / span in
    let bottom = (view.bottom + 1) / span in columns (last + 1 - first) first (top + 1 - bottom) top

-- The part of a coarser tile: which tile, and the square of its image.
pub record Source : Type 0 where
  pub x : ℕ
  pub y : ℕ
  pub sx : ℕ
  pub sy : ℕ
  pub size : ℕ

unfoldable pub ancestor_source : ℕ → ℕ → ℕ → Source
ancestor_source steps x y =
    let span = 2 ^ steps in
    let size = map_tile_size / span in
    record {
      x = x / span;
      y = y / span;
      sx = (x % span) * size;
      sy = (span - 1 - y % span) * size;
      size = size;
    }

-- The least zoom, in parts of `map_tile_size`.
unfoldable pub min_zoom_to_fit : ℕ → ℕ → ℕ
min_zoom_to_fit width height =
    let tiles_wide = 62 - 15 + 1 in
    let tiles_high = 65 - 32 + 1 in
    let tile_px = min (width / tiles_wide) (height / tiles_high) in min (max tile_px 1) 128
