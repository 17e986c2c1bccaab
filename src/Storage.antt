-- ===== src/Storage.antt =====
-- What the page remembers in the browser between visits: site/src/data/storage.js. The browser's
-- store (`localStorage`) is a dictionary that may refuse to be read or to be written; JSON is an
-- interface, with what the code relies on as its law.
use ha_osrs_map.Base.{
  ◌≡◌, arith, Bool, Option, none, some, if◌then◌else◌, Eq, Bool-cases, inl, inr, ◌&&◌,
}
use ha_osrs_map.Base.Dict.{Dict, get, put, get-put}
pub mod Tests

-- `JSON.stringify` and `JSON.parse`, which gives `none` where it throws.
pub record Json {ℓ κ} (Value : Type ℓ) (Text : Type κ) : Type (ℓ ⊔ κ) where
  pub stringify : Value → Text
  pub parse : Text → Option Value
  pub parse-stringify : (v : Value) → parse (stringify v) ≡ some v

pub record Browser {ℓ κ} (Key : Type ℓ) (Text : Type κ) : Type (ℓ ⊔ κ) where
  pub items : Dict Key Text
  pub readable : Bool
  -- Whether `setItem` succeeds.
  pub accepts : Key → Text → Bool

-- `JSON.parse` within the `try`: what cannot be parsed is the fallback.
abbrev pub or_fallback {ℓ} : {Value : Type ℓ} → Value → Option Value → Value
or_fallback fallback none = fallback
or_fallback fallback (some value) = value

abbrev pub read_item {κ ν} :
    {Text : Type κ} {Value : Type ν} → Json Value Text → Value → Option Text → Value
read_item json fallback none = fallback
read_item json fallback (some text) = or_fallback fallback (json.parse text)

module _ {ℓ κ ν} {Key : Type ℓ} {Text : Type κ} {Value : Type ν} ⦃e : Eq Key⦄
    (json : Json Value Text) where
  unfoldable pub remembered : Key → Value → Browser Key Text → Value
  remembered key fallback browser =
      if browser.readable then read_item json fallback (get key browser.items) else fallback

  unfoldable pub remember : Key → Value → Browser Key Text → Browser Key Text
  remember key value browser =
      if browser.accepts key (json.stringify value)
      then record browser { items = put key (json.stringify value) browser.items }
      else browser

  -- What is remembered is read back under its key where the browser accepts it and can be read;
  -- otherwise, and under every other key, what is read is what it was.
  pub remembered-remember :
      (key other : Key) (value fallback : Value) (browser : Browser Key Text)
      → remembered other fallback (remember key value browser) ≡ (
          if browser.readable && browser.accepts key (json.stringify value) && e.beq key other
          then value
          else remembered other fallback browser)
  unfolding remembered remember
  remembered-remember key other value fallback browser =
      elim (Bool-cases (browser.accepts key (json.stringify value))) [
        | inr refused ↦ rw refused (ground arith)
        | inl accepted ↦ elim (Bool-cases browser.readable) [
          | inr unreadable ↦ rw (accepted, unreadable)
          | inl readable ↦
              rw (accepted, readable, get-put key other (json.stringify value) browser.items)
                elim (Bool-cases (e.beq key other)) [
                  | inl same ↦ rw (same, json.parse-stringify value)
                  | inr different ↦ rw different
                ]
        ]
      ]
