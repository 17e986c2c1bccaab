-- ===== src/Items/Quantities.antt =====
-- What the quantities of a member's items add up to.
use ha_osrs_map.Base.{
  ℕ, ◌+◌, ◌≡◌, refl, ap, ◌∙◌, Bool, false, not, ◌&&◌, ◌||◌, List, [], ◌∷◌, Option, none, some,
  if◌then◌else◌, nat_beq, nat_beq_iff, nat_eq, Bool-cases, inl, inr, arith, All,
}
use ha_osrs_map.Base.Dict.{Dict, get, get-put}
use ha_osrs_map.Items.{
  Item, transform_items, no_item, is_valid, parse_item_data, quantity_or_zero, plus_quantity,
  count_item, count_items, item_quantities, quantity_of,
}

-- How many of an item a list of items has, each with its quantity.
abbrev pub total_of : ℕ → List Item → ℕ
total_of id [] = 0
total_of id (item ∷ items) =
    (if nat_beq item.id id then quantity_or_zero (some item.quantity) else 0) + total_of id items

abbrev pub HasQuantity : Option ℕ → Type 0
HasQuantity none = ⊥
HasQuantity (some n) = Unit

count_item-adds :
    (other : ℕ) (quantity : Option ℕ) (quantities : Dict ℕ (Option ℕ)) (id : ℕ)
    → nat_beq id 0 ≡ false
    → HasQuantity quantity
    → quantity_or_zero (get id (count_item other quantity quantities))
      ≡ quantity_or_zero (get id quantities)
        + (if nat_beq other id then quantity_or_zero (some quantity) else 0)
count_item-adds other none quantities id valid h = absurd h
count_item-adds other (some n) quantities id valid h = elim (Bool-cases (nat_beq other 0)) [
  | inl nothing ↦
      let different : nat_beq other id ≡ false = ground (arith, nothing, valid) in
      rw (nothing, different) (omega arith)
  | inr something ↦ elim (Bool-cases (nat_beq other id)) [
    | inl same ↦ rw (
      something,
      get-put other id (some (quantity_or_zero (get other quantities) + n)) quantities,
      same,
      (nat_beq_iff other id).0 same,
    )
    | inr different ↦
        rw
          (
            something,
            get-put other id (some (quantity_or_zero (get other quantities) + n)) quantities,
            different,
          )
          (omega arith)
  ]
]

count_items-total :
    (items : List Item) (quantities : Dict ℕ (Option ℕ)) (id : ℕ)
    → nat_beq id 0 ≡ false
    → All (λ item. HasQuantity item.quantity) items
    → quantity_or_zero (get id (count_items items quantities))
      ≡ quantity_or_zero (get id quantities) + total_of id items
unfolding count_items
count_items-total [] quantities id valid h = omega arith
count_items-total (item ∷ items) quantities id valid h =
    count_items-total items _ id valid h.1
    ∙ omega (arith, count_item-adds item.id item.quantity quantities id valid h.0)

parse_item_data-HasQuantity :
    (known : ℕ → Bool) (items : List Item)
    → All (λ item. HasQuantity item.quantity) items
    → All (λ item. HasQuantity item.quantity) (parse_item_data known items)
unfolding parse_item_data
parse_item_data-HasQuantity known [] h = tt
parse_item_data-HasQuantity known (item ∷ items) h =
    elim (Bool-cases (not (is_valid item) || not (known item.id))) [
      | inl left_out ↦ rw left_out (tt, parse_item_data-HasQuantity known items h.1)
      | inr kept ↦ rw kept (h.0, parse_item_data-HasQuantity known items h.1)
    ]

parse_item-share :
    (known : ℕ → Bool) (item : Item) (id : ℕ)
    → nat_beq id 0 ≡ false
    → let parsed = if not (is_valid item) || not (known item.id) then no_item else item in
      (if nat_beq parsed.id id then quantity_or_zero (some parsed.quantity) else 0) ≡ (
        if known id
        then if nat_beq item.id id then quantity_or_zero (some item.quantity) else 0
        else 0)
parse_item-share known item id valid = elim (Bool-cases (nat_beq item.id id)) [
  | inl same ↦
      let e : known item.id ≡ known id = ap known ((nat_beq_iff item.id id).0 same) in
      let real : nat_beq item.id 0 ≡ false = ground (arith, same, valid) in
      rw (real, e)
        elim (Bool-cases (known id)) [ inl k ↦ rw (k, same) | inr u ↦ rw u (ground (arith, valid)) ]
  | inr different ↦ elim (Bool-cases (not (is_valid item) || not (known item.id))) [
    | inl left_out ↦ rw (left_out, different) (ground (arith, valid))
    | inr kept ↦ rw (kept, different) (ground arith)
  ]
]

total_of-parse_item_data :
    (known : ℕ → Bool) (items : List Item) (id : ℕ)
    → nat_beq id 0 ≡ false
    → total_of id (parse_item_data known items) ≡ (if known id then total_of id items else 0)
unfolding parse_item_data
total_of-parse_item_data known [] id valid = ground arith
total_of-parse_item_data known (item ∷ items) id valid =
    rw (parse_item-share known item id valid, total_of-parse_item_data known items id valid)
      elim (Bool-cases (known id)) [ inl k ↦ rw k | inr u ↦ rw u ]

-- Pairs of an id and a quantity, as the backend stores them.
abbrev pub flat : List (ℕ × ℕ) → List ℕ
flat [] = []
flat ((id, quantity) ∷ pairs) = id ∷ quantity ∷ flat pairs

abbrev pub stored_total : ℕ → List (ℕ × ℕ) → ℕ
stored_total id [] = 0
stored_total id ((other, quantity) ∷ pairs) =
    (if nat_beq other id then quantity else 0) + stored_total id pairs

transform_items-flat :
    (pairs : List (ℕ × ℕ)) (id : ℕ)
    → All (λ item. HasQuantity item.quantity) (transform_items (flat pairs))
      × (total_of id (transform_items (flat pairs)) ≡ stored_total id pairs)
unfolding transform_items
transform_items-flat [] id = (tt, refl)
transform_items-flat ((other, quantity) ∷ pairs) id =
    let rest = transform_items-flat pairs id in ((tt, rest.0), omega (arith, rest.1))

count_item-nothing :
    (other : ℕ) (quantity : Option ℕ) (quantities : Dict ℕ (Option ℕ))
    → get 0 quantities ≡ none
    → get 0 (count_item other quantity quantities) ≡ none
count_item-nothing other quantity quantities absent = elim (Bool-cases (nat_beq other 0)) [
  | inl no_item ↦ rw no_item absent
  | inr item ↦
      rw
        (
          item,
          get-put other 0 (plus_quantity (quantity_or_zero (get other quantities)) quantity)
              quantities,
        )
        (rw item absent)
]

-- Item 0 is never counted.
count_items-nothing :
    (items : List Item) (quantities : Dict ℕ (Option ℕ))
    → get 0 quantities ≡ none
    → get 0 (count_items items quantities) ≡ none
unfolding count_items
count_items-nothing [] quantities absent = absent
count_items-nothing (item ∷ items) quantities absent =
    count_items-nothing items _ (count_item-nothing item.id item.quantity quantities absent)

quantity_of-known :
    (known : ℕ → Bool) (pairs : List (ℕ × ℕ)) (id : ℕ)
    → nat_beq id 0 ≡ false
    → quantity_of id (item_quantities (parse_item_data known (transform_items (flat pairs))))
      ≡ (if known id then stored_total id pairs else 0)
unfolding quantity_of item_quantities get
quantity_of-known known pairs id valid =
    let stored = transform_items-flat pairs id in
    count_items-total (parse_item_data known (transform_items (flat pairs))) [] id valid
      (parse_item_data-HasQuantity known _ stored.0)
    ∙ omega (arith, total_of-parse_item_data known (transform_items (flat pairs)) id valid)
    ∙ ap (λ n. if known id then n else 0) stored.1

-- What is shown as the quantity of an item is the sum of all that the backend stored of it, if the
-- item is known and its id is not 0. An item that is not known shows 0, and so does item 0, which
-- counts as no item even where it is known.
pub quantity_of-stored :
    (known : ℕ → Bool) (pairs : List (ℕ × ℕ)) (id : ℕ)
    → quantity_of id (item_quantities (parse_item_data known (transform_items (flat pairs))))
      ≡ (if known id && not (nat_beq id 0) then stored_total id pairs else 0)
unfolding quantity_of item_quantities get
quantity_of-stored known pairs id = elim (Bool-cases (nat_beq id 0)) [
  | inl no_item ↦
      let none_counted =
        count_items-nothing (parse_item_data known (transform_items (flat pairs))) [] refl in
      rw ((nat_beq_iff id 0).0 no_item, none_counted) (ground arith)
  | inr item ↦ quantity_of-known known pairs id item ∙ rw item (ground arith)
]
