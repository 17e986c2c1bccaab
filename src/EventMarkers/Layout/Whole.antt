-- ===== src/EventMarkers/Layout/Whole.antt =====
-- That what is laid out is all of what is on the screen.
use ha_osrs_map.Base.{
  ℕ, ◌+◌, ◌≡◌, refl, ◌∙◌, arith, Bool, List, [], ◌∷◌, length, keep_if, Bool-cases, inl, inr,
}
use ha_osrs_map.Base.Sorting.{sort, insert, length-keep_if-sort}
use ha_osrs_map.EventMarkers.Visible.{Shown}
use ha_osrs_map.EventMarkers.Stacks.{ScreenPoint, Stack, stack_points}
use ha_osrs_map.EventMarkers.Stacks.Together.{total, stack_points-IsTogether}
use ha_osrs_map.EventMarkers.Layout.{
  View, Item, points_on, notable_first, item_if, items_of, drawn_first, layout_markers,
  event_stack_px,
}

module _ {ℓ κ τ} {EventId : Type ℓ} {Color : Type κ} {Text : Type τ} (has_words : Text → Bool)
    (view : View) (p : ScreenPoint (Shown EventId Color Text) → Bool) where
  abbrev pub of_items : List (Item EventId Color Text) → ℕ
  of_items [] = 0
  of_items (item ∷ items) = length (keep_if p item.members) + of_items items

  of_items-item_if :
      (group : Stack (Shown EventId Color Text))
      (members : List (ScreenPoint (Shown EventId Color Text)))
      (rest : List (Item EventId Color Text))
      → of_items (item_if has_words view group members rest)
        ≡ length (keep_if p members) + of_items rest
  of_items-item_if group [] rest = omega arith
  of_items-item_if group (top ∷ members) rest = refl

  of_items-items_of :
      (groups : List (Stack (Shown EventId Color Text)))
      → of_items (items_of has_words view groups) ≡ total p groups
  unfolding items_of
  of_items-items_of [] = refl
  of_items-items_of (group ∷ groups) =
      of_items-item_if group (sort notable_first group.members) _
      ∙ omega (arith, length-keep_if-sort notable_first p group.members, of_items-items_of groups)

  of_items-insert :
      (le : Item EventId Color Text → Item EventId Color Text → Bool)
      (item : Item EventId Color Text) (items : List (Item EventId Color Text))
      → of_items (insert le item items) ≡ length (keep_if p item.members) + of_items items
  unfolding insert
  of_items-insert le item [] = refl
  of_items-insert le item (other ∷ items) = elim (Bool-cases (le item other)) [
    | inl here ↦ rw here
    | inr later ↦ rw later (omega (arith, of_items-insert le item items))
  ]

  of_items-sort :
      (le : Item EventId Color Text → Item EventId Color Text → Bool)
      (items : List (Item EventId Color Text))
      → of_items (sort le items) ≡ of_items items
  unfolding sort
  of_items-sort le [] = refl
  of_items-sort le (item ∷ items) =
      of_items-insert le item (sort le items) ∙ omega (arith, of_items-sort le items)

  -- Whatever is counted, there is as much of it in the items that are laid out as among the markers
  -- that are on the screen or within the pad of it: none is lost and none is drawn twice.
  pub layout_markers-whole :
      (markers : List (Shown EventId Color Text))
      → of_items (layout_markers has_words markers view).0
        ≡ length (keep_if p (points_on view markers))
  unfolding layout_markers
  layout_markers-whole markers =
      let stacks = stack_points event_stack_px (points_on view markers) in
      of_items-sort (drawn_first view) (items_of has_words view stacks)
      ∙ of_items-items_of stacks
      ∙ (stack_points-IsTogether event_stack_px (omega arith) p (points_on view markers)).1
