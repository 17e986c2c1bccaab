-- ===== src/TrailSessions/Spans.antt =====
-- That the spans offered have their sessions in them, and are ones that the server gives.
use ha_osrs_map.Base.{
  ℕ, suc, ◌+◌, ◌*◌, ◌≡◌, ◌≤◌, arith, true, ◌||◌, List, [], ◌∷◌, Option, none, some, ltb, leb,
  keep_if, map, All, All-append, Bool-cases, inl, inr, leb→le,
}
use ha_osrs_map.TrailSessions.{
  Session, End, still_open, ended_at, Played, Choice, if_long, played_from, real_sessions, or_now,
  is_short, is_picked, listed, choice_of, session_options, sessions_shown, session_min_ms,
}

-- A played session is long enough to have a trail, and short enough to ask for.
abbrev IsLong : ℕ → Option ℕ → Type 0
IsLong start none = Unit
IsLong start (some stop) = start + 120000 ≤ stop

abbrev IsPlayed : Played → Type 0
IsPlayed played = IsLong played.start played.ended

-- A span has its session in it and is of no more than seven days; one that is still open began no
-- more than seven days before now.
abbrev pub IsAskable : ℕ → ℕ → ℕ → Option ℕ → Type 0
IsAskable now start from none = (1000 * from ≤ start) × (now ≤ 1000 * from + 604800000)
IsAskable now start from (some to) =
    (1000 * from ≤ start) × (start + 120000 ≤ 1000 * to) × (to ≤ from + 604800)

abbrev pub IsGood : ℕ → Choice → Type 0
IsGood now choice = IsAskable now choice.start choice.from choice.to

if_long-IsPlayed : (start stop : ℕ) → All IsPlayed (if_long start stop)
if_long-IsPlayed start stop = elim (Bool-cases (leb (start + session_min_ms) stop)) [
  | inl long ↦ rw long (leb→le (start + session_min_ms) stop long, tt)
  | inr short ↦ rw short tt
]

played_from-IsPlayed : (start : Option ℕ) (ended : End) → All IsPlayed (played_from start ended)
played_from-IsPlayed none ended = tt
played_from-IsPlayed (some start) still_open = (tt, tt)
played_from-IsPlayed (some start) (ended_at none) = tt
played_from-IsPlayed (some start) (ended_at (some stop)) = if_long-IsPlayed start stop

real_sessions-IsPlayed : (sessions : List Session) → All IsPlayed (real_sessions sessions)
unfolding real_sessions
real_sessions-IsPlayed [] = tt
real_sessions-IsPlayed (session ∷ sessions) =
    All-append IsPlayed (played_from session.started_at session.ended) (real_sessions sessions)
      (played_from-IsPlayed session.started_at session.ended) (real_sessions-IsPlayed sessions)

-- What a played session that is short enough is offered as.
choice_of-IsGood :
    (now start : ℕ) (ended : Option ℕ)
    → IsLong start ended
    → leb (or_now now ended) (start + 604200000) ≡ true
    → IsGood now (choice_of (record { start = start; ended = ended }))
choice_of-IsGood now start none long short =
    let bound = leb→le now (start + 604200000) short in (omega arith, omega (arith, bound))
choice_of-IsGood now start (some stop) long short =
    let bound = leb→le stop (start + 604200000) short in
    (omega arith, omega (arith, long), omega (arith, bound))

short-IsGood :
    (now : ℕ) (played : List Played)
    → All IsPlayed played
    → All (λ p. IsGood now (choice_of p)) (keep_if (is_short now) played)
short-IsGood now [] h = tt
short-IsGood now (p ∷ played) h = elim (Bool-cases (is_short now p)) [
  | inl short ↦
      rw short (choice_of-IsGood now p.start p.ended h.0 short, short-IsGood now played h.1)
  | inr long ↦ rw long (short-IsGood now played h.1)
]

listed-IsGood :
    (now : ℕ) (picked : Option ℕ) (index : ℕ) (played : List Played)
    → All (λ p. IsGood now (choice_of p)) played
    → All (IsGood now) (map choice_of (listed picked index played))
unfolding listed
listed-IsGood now picked index [] h = tt
listed-IsGood now picked index (p ∷ played) h =
    elim (Bool-cases (ltb index sessions_shown || is_picked picked p.start)) [
      | inl kept ↦ rw kept (h.0, listed-IsGood now picked (suc index) played h.1)
      | inr out ↦ rw out (listed-IsGood now picked (suc index) played h.1)
    ]

-- Every session that is offered has a span which begins no later than the session, and ends no
-- earlier than two minutes after its start if it is over; no span is of more than seven days.
pub session_options-IsGood :
    (sessions : List Session) (now : ℕ) (picked : Option ℕ)
    → All (IsGood now) (session_options sessions now picked)
unfolding session_options
session_options-IsGood sessions now picked =
    listed-IsGood now picked 0 _
      (short-IsGood now (real_sessions sessions) (real_sessions-IsPlayed sessions))
