-- ===== src/Items.antt =====
-- What members carry: parseItemData of site/src/data/item.js, transformItemsFromStorage of
-- guild-data.js and updateItemQuantitiesIn of member-data.js. The details of items, which the page
-- loads, are the test whether an id is known. An id that is not above 0 is 0 here.
use ha_osrs_map.Base.{
  ℕ, ◌+◌, Bool, not, ◌||◌, List, [], ◌∷◌, Option, none, some, if◌then◌else◌, nat_beq, nat_eq,
}
use ha_osrs_map.Base.Dict.{Dict, get, put}
pub mod Quantities
pub mod Tests

-- An item as it is stored and as it is shown. A quantity that a list is too short for is missing
-- (`undefined`, and NaN in sums).
pub record Item : Type 0 where
  pub id : ℕ
  pub quantity : Option ℕ

-- `transformItemsFromStorage`: ids and quantities in turn.
unfoldable pub transform_items : List ℕ → List Item
transform_items [] = []
transform_items (id ∷ []) = record { id = id; quantity = none } ∷ []
transform_items (id ∷ quantity ∷ items) =
    record { id = id; quantity = some quantity } ∷ transform_items items

abbrev pub no_item : Item
no_item = record { id = 0; quantity = some 0 }

abbrev pub is_valid : Item → Bool
is_valid item = not (nat_beq item.id 0)

unfoldable pub parse_item_data : (ℕ → Bool) → List Item → List Item
parse_item_data known [] = []
parse_item_data known (item ∷ items) =
    let rest = parse_item_data known items in
    (if not (is_valid item) || not (known item.id) then no_item else item) ∷ rest

-- `quantities.get(id) || 0`
abbrev pub quantity_or_zero : Option (Option ℕ) → ℕ
quantity_or_zero none = 0
quantity_or_zero (some none) = 0
quantity_or_zero (some (some n)) = n

-- `… + item.quantity`
abbrev pub plus_quantity : ℕ → Option ℕ → Option ℕ
plus_quantity n none = none
plus_quantity n (some quantity) = some (n + quantity)

-- The body of the loop of `updateItemQuantitiesIn`, and the loop.
abbrev pub count_item : ℕ → Option ℕ → Dict ℕ (Option ℕ) → Dict ℕ (Option ℕ)
count_item id quantity quantities =
    let total = plus_quantity (quantity_or_zero (get id quantities)) quantity in
    if not (nat_beq id 0) then put id total quantities else quantities

unfoldable pub count_items : List Item → Dict ℕ (Option ℕ) → Dict ℕ (Option ℕ)
count_items [] quantities = quantities
count_items (item ∷ items) quantities =
    count_items items (count_item item.id item.quantity quantities)

unfoldable pub item_quantities : List Item → Dict ℕ (Option ℕ)
item_quantities items = count_items items []

-- `inventoryQuantityForItem` of guild-data.js, for a member who is there.
unfoldable pub quantity_of : ℕ → Dict ℕ (Option ℕ) → ℕ
quantity_of id quantities = quantity_or_zero (get id quantities)
