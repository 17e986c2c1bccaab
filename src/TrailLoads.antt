-- ===== src/TrailLoads.antt =====
-- The trails that the map page asks for: loadTrails of site/src/map-page/map-page.js. Requests
-- overlap: each is a step, and so is each answer, in whatever order they come. What the menu says of
-- the time, who is selected and whether there is a history are arguments; the sessions, the events
-- along the trails and the words of the page are not modelled.
use ha_osrs_map.Base.{
  is_empty, ℕ, suc, ◌-◌, ◌*◌, ◌^◌, min, ◌≡◌, Bool, true, false, not, ◌||◌, List, [], ◌∷◌, Option,
  none, some, if◌then◌else◌, nat_beq, get_elem?, All, Eq,
}
use ha_osrs_map.Base.Dict.{Dict, put, delete}
use ha_osrs_map.Base.Sets.{contains}
pub mod Current
pub mod Tests

abbrev pub trail_refresh_ms : ℕ
trail_refresh_ms = 60000

abbrev pub trail_retry_ms : ℕ
trail_retry_ms = 5000

pub data TrailError : Type 0 where
  hub_busy : TrailError
  unavailable : TrailError

-- A trail of the server's answer, which `raw` has the rest of.
pub record TrailReply {ν ρ} (Name : Type ν) (Raw : Type ρ) : Type (ν ⊔ ρ) where
  pub member : Name
  pub shared : Bool
  pub raw : Raw

-- The trails and what the page says of their age, or a failure and whether its status was 503.
pub data Answer {ν ρ} (Name : Type ν) (Raw : Type ρ) : Type (ν ⊔ ρ) where
  trails : List (TrailReply Name Raw) → Bool → Answer Name Raw
  failed : Bool → Answer Name Raw

pub record Request {ν σ} (Name : Type ν) (Span : Type σ) : Type (ν ⊔ σ) where
  pub id : ℕ
  pub names : List Name
  pub span : Span

-- `on_map` has each trail with the time it was asked for, `refresh_in` the timer.
pub record TrailLoads {ν ρ σ} (Name : Type ν) (Raw : Type ρ) (Span : Type σ)
    : Type (ν ⊔ ρ ⊔ σ) where
  pub request_id : ℕ
  pub selected : List Name
  pub on_map : Dict Name (Raw × Span)
  pub trail_data : Dict Name (TrailReply Name Raw)
  pub under_way : List (Request Name Span)
  pub connected : Bool
  pub failures : ℕ
  pub is_stale : Bool
  pub error : Option TrailError
  pub refresh_in : Option ℕ

abbrev pub retry_after : ℕ → ℕ
retry_after failures = min (trail_retry_ms * 2 ^ (failures - 1)) trail_refresh_ms

module _ {ν} {Name : Type ν} ⦃n : Eq Name⦄ where
  -- The loops that take off what is not selected.
  unfoldable pub keep_named {ℓ} : {A : Type ℓ} → List Name → Dict Name A → Dict Name A
  keep_named names [] = []
  keep_named names ((name, a) ∷ m) =
      let rest = keep_named names m in if contains name names then (name, a) ∷ rest else rest

  module _ {ρ} {Raw : Type ρ} where
    -- `new Map(data.trails.map((trail) => [trail.member, trail]))`
    unfoldable pub by_member :
        List (TrailReply Name Raw)
        → Dict Name (TrailReply Name Raw)
        → Dict Name (TrailReply Name Raw)
    by_member [] m = m
    by_member (reply ∷ replies) m = by_member replies (put reply.member reply m)

    -- The loop of `setTrail` and `clearTrail`.
    unfoldable pub set_each {σ} :
        {Span : Type σ}
        → Span
        → List (TrailReply Name Raw)
        → Dict Name (Raw × Span)
        → Dict Name (Raw × Span)
    set_each span [] m = m
    set_each span (reply ∷ replies) m =
        set_each span replies
          (if reply.shared then put reply.member (reply.raw, span) m else delete reply.member m)

    -- The server answers with trails of those it was asked for.
    abbrev pub IsOf : List Name → Answer Name Raw → Type 0
    IsOf names (trails replies stale) = All (λ r. contains r.member names ≡ true) replies
    IsOf names (failed busy) = Unit

    module _ {σ} {Span : Type σ} where
      -- `loadTrails` up to the request.
      unfoldable pub load_trails :
          List Name → Span → Bool → TrailLoads Name Raw Span → TrailLoads Name Raw Span
      load_trails names span has_history s =
          let id = suc s.request_id in
          let kept = record s {
            request_id = id;
            selected = names;
            on_map = keep_named names s.on_map;
            trail_data = keep_named names s.trail_data;
            refresh_in = none;
          } in
          if is_empty names || not has_history
          then record kept { failures = 0; is_stale = false; error = none }
          else record kept {
            under_way = record { id = id; names = names; span = span } ∷ s.under_way;
          }

      -- What it does with an answer that has not been overtaken.
      abbrev pub use_answer :
          Span → Answer Name Raw → TrailLoads Name Raw Span → TrailLoads Name Raw Span
      use_answer span (trails replies stale) s = record s {
        trail_data = by_member replies [];
        on_map = set_each span replies s.on_map;
        failures = 0;
        is_stale = stale;
        error = none;
        refresh_in = some trail_refresh_ms;
      }
      use_answer span (failed busy) s = record s {
        error = some (if busy then hub_busy else unavailable);
        is_stale = false;
        failures = suc s.failures;
        refresh_in = some (retry_after (suc s.failures));
      }

      unfoldable pub take_answer :
          Request Name Span → Answer Name Raw → TrailLoads Name Raw Span → TrailLoads Name Raw Span
      take_answer request answer s =
          if not s.connected || not (nat_beq request.id s.request_id)
          then s
          else use_answer request.span answer s

      -- `disconnectedCallback`: the map's trails are cleared and the timer is stopped.
      abbrev pub leave : TrailLoads Name Raw Span → TrailLoads Name Raw Span
      leave s = record s { connected = false; on_map = []; refresh_in = none }

      -- A request, the answer to any that was made, and the page leaving the document. A request
      -- stays on the list when it is answered, so that an answer may also come twice.
      pub data Step : TrailLoads Name Raw Span → TrailLoads Name Raw Span → Type (ν ⊔ ρ ⊔ σ) where
        loads :
            {s : TrailLoads Name Raw Span} (names : List Name) (span : Span) (has_history : Bool)
            → Step s (load_trails names span has_history s)
        answers :
            {s : TrailLoads Name Raw Span} (i : ℕ) (request : Request Name Span)
            (answer : Answer Name Raw)
            → get_elem? s.under_way i ≡ some request
            → IsOf request.names answer
            → Step s (take_answer request answer s)
        leaves : {s : TrailLoads Name Raw Span} → Step s (leave s)

      pub data Reaches (s : TrailLoads Name Raw Span)
          : TrailLoads Name Raw Span → Type (ν ⊔ ρ ⊔ σ) where
        start : Reaches s s
        then_step : {t u : TrailLoads Name Raw Span} → Reaches s t → Step t u → Reaches s u
