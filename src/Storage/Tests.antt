-- ===== src/Storage/Tests.antt =====
-- The storage of a browser that accepts short texts only, and its theorems at it.
use ha_osrs_map.Base.{nat_eq, ◌≡◌, refl, ℕ, true, [], ◌∷◌, some, ltb}
use ha_osrs_map.Base.Dict.{get, put}
use ha_osrs_map.Storage.{Json, Browser, remember, remembered}

abbrev plain : Json ℕ ℕ
plain = record { stringify = λ v. v; parse = λ t. some t; parse-stringify = λ v i. some v }

abbrev small : Browser ℕ ℕ
small = record { items = (1, 10) ∷ []; readable = true; accepts = λ key text. ltb text 100 }

keeps_old : remembered plain 1 0 (remember plain 2 20 small) ≡ 10
unfolding remember remembered get put
keeps_old = refl
