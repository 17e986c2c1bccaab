-- ===== src/TrailSessions/Tests.antt =====
-- Sessions of an evening, and the theorem at them.
use ha_osrs_map.Base.{◌≡◌, refl, List, [], ◌∷◌, none, some, All, length}
use ha_osrs_map.TrailSessions.{
  Session, still_open, ended_at, real_sessions, listed, session_options,
}
use ha_osrs_map.TrailSessions.Spans.{IsGood, session_options-IsGood}

program : Unit {0}
unfolding session_options listed real_sessions
program = tt

abbrev sessions : List Session
sessions =
    record { started_at = some 9000500; ended = still_open }
    ∷ record { started_at = some 5000000; ended = ended_at (some 5060000) }
    ∷ record { started_at = none; ended = still_open }
    ∷ record { started_at = some 1000000; ended = ended_at (some 4000001) }
    ∷ []

offers_two : length (session_options sessions 10000000 none) ≡ 2
unfolding program
offers_two = refl

session_options-IsGood_example : All (IsGood 10000000) (session_options sessions 10000000 none)
session_options-IsGood_example = session_options-IsGood sessions 10000000 none
