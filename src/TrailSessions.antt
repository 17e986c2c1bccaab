-- ===== src/TrailSessions.antt =====
-- How long a trail is asked for: site/src/map-page/trail-sessions.js, but for its words. Times of
-- sessions are in ms, those of spans in seconds; sessions are after the first minute of 1970.
use ha_osrs_map.Base.{
  ℕ, suc, ◌+◌, ◌-◌, ◌*◌, ◌/◌, Bool, false, ◌||◌, List, [], ◌∷◌, ◌++◌, Option, none, some,
  if◌then◌else◌, ltb, leb, nat_beq, keep_if, map,
}
pub mod Spans
pub mod Tests

abbrev pub session_pad_s : ℕ
session_pad_s = 60

abbrev pub session_min_ms : ℕ
session_min_ms = 2 * 60 * 1000

abbrev pub session_max_ms : ℕ
session_max_ms = 7 * 86400 * 1000 - 10 * 60 * 1000

abbrev pub sessions_shown : ℕ
sessions_shown = 12

-- When a session ended: not yet, or at a time, if it is one.
pub data End : Type 0 where
  still_open : End
  ended_at : Option ℕ → End

-- A session as the backend sends it; a start that is no time is none.
pub record Session : Type 0 where
  pub started_at : Option ℕ
  pub ended : End

-- A session with its times.
pub record Played : Type 0 where
  pub start : ℕ
  pub ended : Option ℕ

-- A choice for the length of the trails; `value` is the start.
pub record Choice : Type 0 where
  pub start : ℕ
  pub from : ℕ
  pub to : Option ℕ

-- The first filter: a start, and an end that is not soon after it.
abbrev pub if_long : ℕ → ℕ → List Played
if_long start stop =
    if leb (start + session_min_ms) stop
    then record { start = start; ended = some stop } ∷ []
    else []

abbrev pub played_until : ℕ → End → List Played
played_until start still_open = record { start = start; ended = none } ∷ []
played_until start (ended_at none) = []
played_until start (ended_at (some stop)) = if_long start stop

abbrev pub played_from : Option ℕ → End → List Played
played_from none ended = []
played_from (some start) ended = played_until start ended

unfoldable pub real_sessions : List Session → List Played
real_sessions [] = []
real_sessions (session ∷ sessions) =
    played_from session.started_at session.ended ++ real_sessions sessions

abbrev pub or_now : ℕ → Option ℕ → ℕ
or_now now none = now
or_now now (some t) = t

-- The second filter: short enough to ask for.
abbrev pub is_short : ℕ → Played → Bool
is_short now played = leb (or_now now played.ended) (played.start + session_max_ms)

abbrev pub is_picked : Option ℕ → ℕ → Bool
is_picked none start = false
is_picked (some picked) start = nat_beq start picked

-- The third filter, from index `index` on: the newest, and the one that was picked.
unfoldable pub listed : Option ℕ → ℕ → List Played → List Played
listed picked index [] = []
listed picked index (played ∷ rest) =
    let later = listed picked (suc index) rest in
    if ltb index sessions_shown || is_picked picked played.start then played ∷ later else later

abbrev pub padded_end : Option ℕ → Option ℕ
padded_end none = none
padded_end (some stop) = some ((stop + 999) / 1000 + session_pad_s)

abbrev pub choice_of : Played → Choice
choice_of played = record {
  start = played.start;
  from = played.start / 1000 - session_pad_s;
  to = padded_end played.ended;
}

unfoldable pub session_options : List Session → ℕ → Option ℕ → List Choice
session_options sessions now picked =
    map choice_of (listed picked 0 (keep_if (is_short now) (real_sessions sessions)))

-- A span: a number of days, or from a time to another, or until now.
pub data Span : Type 0 where
  days : ℕ → Span
  between : ℕ → Option ℕ → Span

pub record Window : Type 0 where
  pub window_s : ℕ
  pub until : Option ℕ
  pub from : ℕ

unfoldable pub span_window : Span → ℕ → Window
span_window (days n) now_s = record { window_s = n * 86400; until = none; from = now_s - n * 86400 }
span_window (between from to) now_s = record {
  window_s = or_now now_s to - from;
  until = to;
  from = from;
}
