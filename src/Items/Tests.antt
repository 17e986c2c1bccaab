-- ===== src/Items/Tests.antt =====
-- A list of stored items, and the theorem at it.
use ha_osrs_map.Base.{not, ◌&&◌, nat_beq, ◌≡◌, refl, true, [], ◌∷◌, if◌then◌else◌, nat_eq, ltb}
use ha_osrs_map.Base.Dict.{get, put}
use ha_osrs_map.Items.{transform_items, parse_item_data, count_items, item_quantities, quantity_of}
use ha_osrs_map.Items.Quantities.{flat, stored_total, quantity_of-stored}

adds_stacks :
    quantity_of 995 (
      item_quantities (
        parse_item_data (λ id. ltb id 1000) (transform_items (995 ∷ 10 ∷ 4000 ∷ 7 ∷ 995 ∷ 5 ∷ []))))
    ≡ 15
unfolding quantity_of item_quantities count_items parse_item_data transform_items get put
adds_stacks = refl

quantity_of-stored_example :
    quantity_of 995 (
      item_quantities (
        parse_item_data
          (λ id. ltb id 1000)
          (transform_items (flat ((995, 10) ∷ (4000, 7) ∷ (995, 5) ∷ [])))))
    ≡ (if true && not (nat_beq 995 0)
        then stored_total 995 ((995, 10) ∷ (4000, 7) ∷ (995, 5) ∷ [])
        else 0)
quantity_of-stored_example =
    quantity_of-stored (λ id. ltb id 1000) ((995, 10) ∷ (4000, 7) ∷ (995, 5) ∷ []) 995
