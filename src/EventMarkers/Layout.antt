-- ===== src/EventMarkers/Layout.antt =====
-- Where markers go on the screen: layoutMarkers of site/src/canvas-map/event-markers.js. Lengths are
-- whole pixels, positions counted from 72 pixels above and to the left of the canvas. What is
-- further off than that is at 0. Strengths of items are in hundredths of those of markers, those of
-- labels in parts of 3000.
use ha_osrs_map.Base.{
  ℕ, ◌+◌, ◌-◌, ◌*◌, min, max, Bool, true, false, not, ◌&&◌, ◌||◌, List, [], ◌∷◌, Option, none, some,
  if◌then◌else◌, ltb, leb, nat_beq, length, keep_if, any_of,
}
use ha_osrs_map.Base.Sorting.{sort}
use ha_osrs_map.EventView.{EventKind}
use ha_osrs_map.EventMarkers.Visible.{Shown}
use ha_osrs_map.EventMarkers.Stacks.{ScreenPoint, Stack, stack_points}
pub mod Whole
pub mod Tests

abbrev pub event_stack_px : ℕ
event_stack_px = 24

abbrev pub event_wake_ms : ℕ
event_wake_ms = 10000

abbrev pub event_frame_ms : ℕ
event_frame_ms = 40

abbrev pub marker_radius : ℕ
marker_radius = 13

abbrev pub marker_radius_big : ℕ
marker_radius_big = 16

abbrev pub marker_radius_compact : ℕ
marker_radius_compact = 8

abbrev pub offscreen_pad : ℕ
offscreen_pad = 60

-- How far above and to the left of the canvas positions are counted from.
abbrev pub origin_px : ℕ
origin_px = 3 * event_stack_px

-- `half_tile` is half the size of a game tile in pixels.
pub record View : Type 0 where
  pub width : ℕ
  pub height : ℕ
  pub plane : ℕ
  pub half_tile : ℕ
  pub to_screen : ℕ → ℕ → ℕ × ℕ
  pub reduced_motion : Bool

pub record Item {ℓ κ τ} (EventId : Type ℓ) (Color : Type κ) (Text : Type τ) : Type (ℓ ⊔ κ ⊔ τ) where
  pub x : ℕ
  pub y : ℕ
  pub r : ℕ
  pub anchor_x : ℕ
  pub anchor_y : ℕ
  pub plane : ℕ
  pub members : List (ScreenPoint (Shown EventId Color Text))
  pub top : ScreenPoint (Shown EventId Color Text)
  pub count : ℕ
  pub alpha : ℕ
  pub compact : Bool
  pub tier : ℕ
  pub color : Color
  pub approximate : Bool
  pub ring_age : Option ℕ
  pub label : Option Text
  pub label_alpha : ℕ
  pub label_kind : Option EventKind

-- Whether a place on the screen is further off the canvas than the pad.
abbrev pub is_off : View → ℕ × ℕ → Bool
is_off view (x, y) =
    ltb x (origin_px - offscreen_pad)
    || ltb y (origin_px - offscreen_pad)
    || ltb (origin_px + view.width + offscreen_pad) x
    || ltb (origin_px + view.height + offscreen_pad) y

abbrev pub or_zero : Option ℕ → ℕ
or_zero none = 0
or_zero (some n) = n

abbrev pub youngest : Option ℕ → Option ℕ → Option ℕ
youngest none rest = rest
youngest (some age) none = some age
youngest (some age) (some other) = some (min age other)

abbrev pub is_some {ℓ} : {A : Type ℓ} → Option A → Bool
is_some none = false
is_some (some a) = true

abbrev pub one_if : Bool → ℕ
one_if b = if b then 1 else 0

abbrev pub is_said_by {τ} : {Text : Type τ} → (Text → Bool) → Option Text → Bool
is_said_by has_words none = false
is_said_by has_words (some text) = has_words text

abbrev pub radius_of : Bool → ℕ → ℕ
radius_of compact tier =
    if compact
    then marker_radius_compact
    else if nat_beq tier 2
    then marker_radius_big
    else marker_radius

module _ {ℓ κ τ} {EventId : Type ℓ} {Color : Type κ} {Text : Type τ} where
  abbrev pub point_of : Shown EventId Color Text → ℕ × ℕ → ScreenPoint (Shown EventId Color Text)
  point_of marker (x, y) = record { of = marker; x = x; y = y; plane = marker.placed.plane }

  -- The loop over the markers.
  unfoldable pub points_on :
      View → List (Shown EventId Color Text) → List (ScreenPoint (Shown EventId Color Text))
  points_on view [] = []
  points_on view (marker ∷ markers) =
      let rest = points_on view markers in
      let place = view.to_screen marker.placed.x marker.placed.y in
      if is_off view place then rest else point_of marker place ∷ rest

  -- The most notable first, then the newest.
  abbrev pub notable_first :
      ScreenPoint (Shown EventId Color Text) → ScreenPoint (Shown EventId Color Text) → Bool
  notable_first a b =
      ltb b.of.tier a.of.tier || nat_beq b.of.tier a.of.tier && leb b.of.placed.at a.of.placed.at

  abbrev pub all_compact : List (ScreenPoint (Shown EventId Color Text)) → Bool
  all_compact [] = true
  all_compact (member ∷ members) = member.of.compact && all_compact members

  abbrev pub strongest : List (ScreenPoint (Shown EventId Color Text)) → ℕ
  strongest [] = 0
  strongest (member ∷ members) = max member.of.alpha (strongest members)

  abbrev pub youngest_ring : List (ScreenPoint (Shown EventId Color Text)) → Option ℕ
  youngest_ring [] = none
  youngest_ring (member ∷ members) = youngest member.of.ring_age (youngest_ring members)

  abbrev pub label_longest :
      ScreenPoint (Shown EventId Color Text) → ScreenPoint (Shown EventId Color Text) → Bool
  label_longest a b = leb (or_zero b.of.label_left) (or_zero a.of.label_left)

  abbrev pub head_of :
      List (ScreenPoint (Shown EventId Color Text)) → Option (Shown EventId Color Text)
  head_of [] = none
  head_of (member ∷ members) = some member.of

  abbrev pub label_of : Option (Shown EventId Color Text) → Option Text
  label_of none = none
  label_of (some labelled) = labelled.label

  abbrev pub label_alpha_of : Option (Shown EventId Color Text) → ℕ
  label_alpha_of none = 0
  label_alpha_of (some labelled) = min 3000 (or_zero labelled.label_left)

  abbrev pub label_kind_of : Option (Shown EventId Color Text) → Option EventKind
  label_kind_of none = none
  label_kind_of (some labelled) = labelled.kind

  -- An item of a stack, its members with the most notable first: `top` and those after it. `has_words`
  -- says whether a label is neither null nor empty.
  abbrev pub item_of :
      (Text → Bool)
      → View
      → Stack (Shown EventId Color Text)
      → ScreenPoint (Shown EventId Color Text)
      → List (ScreenPoint (Shown EventId Color Text))
      → Item EventId Color Text
  item_of has_words view group top members =
      let compact = all_compact members in
      let tier = if compact then 0 else top.of.tier in
      let r = radius_of compact tier in
      let said =
        keep_if (λ (m : ScreenPoint (Shown EventId Color Text)). is_said_by has_words m.of.label)
          members in
      let labelled = head_of (sort label_longest said) in
      record {
        x = group.x;
        y = if compact then group.y else group.y + max view.half_tile 10 + 3 + r;
        r = r;
        anchor_x = group.x;
        anchor_y = group.y;
        plane = group.plane;
        members = members;
        top = top;
        count = length members;
        alpha = strongest members * (if nat_beq group.plane view.plane then 100 else 35);
        compact = compact;
        tier = tier;
        color = top.of.placed.color;
        approximate = top.of.placed.approximate;
        ring_age = if view.reduced_motion then none else youngest_ring members;
        label = label_of labelled;
        label_alpha = label_alpha_of labelled;
        label_kind = label_kind_of labelled;
      }

  -- Every stack has a member.
  abbrev pub item_if :
      (Text → Bool)
      → View
      → Stack (Shown EventId Color Text)
      → List (ScreenPoint (Shown EventId Color Text))
      → List (Item EventId Color Text)
      → List (Item EventId Color Text)
  item_if has_words view group [] rest = rest
  item_if has_words view group (top ∷ members) rest =
      item_of has_words view group top (top ∷ members) ∷ rest

  unfoldable pub items_of :
      (Text → Bool)
      → View
      → List (Stack (Shown EventId Color Text))
      → List (Item EventId Color Text)
  items_of has_words view [] = []
  items_of has_words view (group ∷ groups) =
      item_if has_words view group (sort notable_first group.members)
        (items_of has_words view groups)

  -- What is drawn first: other floors, then compact ones, then the less notable, then the older.
  abbrev pub drawn_first : View → Item EventId Color Text → Item EventId Color Text → Bool
  drawn_first view a b =
      let floor_a = one_if (nat_beq a.plane view.plane) in
      let floor_b = one_if (nat_beq b.plane view.plane) in
      let full_a = one_if (not a.compact) in
      let full_b = one_if (not b.compact) in
      ltb floor_a floor_b
      || nat_beq floor_a floor_b
        && (ltb full_a full_b
            || nat_beq full_a full_b
              && (ltb a.tier b.tier
                  || nat_beq a.tier b.tier && leb a.top.of.placed.at b.top.of.placed.at))

  abbrev pub next_of : (Text → Bool) → List (Item EventId Color Text) → Option ℕ
  next_of has_words items =
      if any_of (λ (i : Item EventId Color Text). is_some i.ring_age) items
      then some event_frame_ms
      else if any_of (λ (i : Item EventId Color Text). is_said_by has_words i.label) items
      then some 250
      else if any_of (λ (i : Item EventId Color Text). not i.compact) items
      then some event_wake_ms
      else none

  unfoldable pub layout_markers :
      (Text → Bool)
      → List (Shown EventId Color Text)
      → View
      → List (Item EventId Color Text) × Option ℕ
  layout_markers has_words markers view =
      let items =
        sort (drawn_first view)
          (items_of has_words view (stack_points event_stack_px (points_on view markers))) in
      (items, next_of has_words items)
