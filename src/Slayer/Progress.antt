-- ===== src/Slayer/Progress.antt =====
-- What a slayer state that is shown is like, whatever the hub sent.
use ha_osrs_map.Base.{
  ℕ, ◌+◌, ◌≡◌, ◌≤◌, ◌<◌, refl, max, arith, Bool, true, false, List, [], ◌∷◌, Option, none, some,
  ltb, ltb→lt, Bool-cases, inl, inr, All,
}
use ha_osrs_map.Slayer.{
  SentTask, SlayerTask, SentSlayer, SlayerState, Streaks, Streak, or_remaining, task_remaining,
  task_of, slayer_state, task_share, sent_streaks, longer_of, longest_from, longest_of, if_running,
  main_streak,
}

-- A task that is shown is not done, and is no further than it can be: what is done and what remains
-- make up its amount, which is not 0.
abbrev pub IsUnderWay : Option SlayerTask → Type 0
IsUnderWay none = Unit
IsUnderWay (some task) =
    (0 < task.remaining)
    × ((task_share task).0 + task.remaining ≡ task.amount)
    × ((task_share task).1 ≡ task.amount)

abbrev pub IsShown : Option SlayerState → Type 0
IsShown none = Unit
IsShown (some state) = IsUnderWay state.task

task_remaining-IsUnderWay :
    (sent : SentTask) (remaining : Option ℕ) → IsUnderWay (task_remaining sent remaining)
unfolding task_share
task_remaining-IsUnderWay sent none = tt
task_remaining-IsUnderWay sent (some remaining) = elim (Bool-cases (ltb 0 remaining)) [
  | inr done ↦ rw done tt
  | inl left ↦
      let amount = max (or_remaining sent.amount remaining) remaining in
      let some_left : ltb 0 amount ≡ true = ground (arith, left) in
      rw left (
        ltb→lt 0 remaining left,
        rw some_left (omega (arith, ltb→lt 0 remaining left)),
        rw some_left,
      )
]

task_of-IsUnderWay : (sent : Option SentTask) → IsUnderWay (task_of sent)
task_of-IsUnderWay none = tt
task_of-IsUnderWay (some sent) = task_remaining-IsUnderWay sent sent.remaining

-- Whatever the hub sent, a slayer task that is shown has something left to do, and its bar is as
-- far as what is done of its amount: done and remaining make up the amount.
pub slayer_state-IsShown : (sent : Option SentSlayer) → IsShown (slayer_state sent)
unfolding slayer_state
slayer_state-IsShown none = tt
slayer_state-IsShown (some sent) = task_of-IsUnderWay sent.task

longer_of-ge : (a b : Streak × ℕ) → (a.1 ≤ (longer_of a b).1) × (b.1 ≤ (longer_of a b).1)
longer_of-ge a b = elim (Bool-cases (ltb a.1 b.1)) [
  | inl longer ↦ rw longer (omega (arith, ltb→lt a.1 b.1 longer), omega arith)
  | inr shorter ↦ rw shorter (omega arith, ground (arith, shorter))
]

longest_from-ge :
    (first : Streak × ℕ) (streaks : List (Streak × ℕ))
    → (first.1 ≤ (longest_from first streaks).1)
      × All (λ s. s.1 ≤ (longest_from first streaks).1) streaks
longest_from-ge first [] = (omega arith, tt)
longest_from-ge first (next ∷ streaks) =
    let either = longer_of-ge first next in
    let rest = longest_from-ge (longer_of first next) streaks in
    (omega (arith, either.0, rest.0), (omega (arith, either.1, rest.0), rest.1))

abbrev pub IsLongest : List (Streak × ℕ) → Option (Streak × ℕ) → Type 0
IsLongest streaks none = streaks ≡ []
IsLongest streaks (some longest) = All (λ s. s.1 ≤ longest.1) streaks

longest_of-IsLongest : (streaks : List (Streak × ℕ)) → IsLongest streaks (longest_of streaks)
longest_of-IsLongest [] = refl
longest_of-IsLongest (first ∷ streaks) =
    let rest = longest_from-ge first streaks in (rest.0, rest.1)

abbrev pub runs : Option ℕ → Bool
runs none = false
runs (some value) = ltb 0 value

if_running-stopped :
    (normal : Option ℕ) (otherwise : Option (Streak × ℕ))
    → runs normal ≡ false
    → if_running normal otherwise ≡ otherwise
if_running-stopped none otherwise stopped = refl
if_running-stopped (some value) otherwise stopped = rw stopped

-- While the regular streak does not run, the streak that is shown is the longest that was sent, and
-- none is shown only if none was sent.
pub main_streak-IsLongest :
    (s : Streaks) → runs s.normal ≡ false → IsLongest (sent_streaks s) (main_streak s)
unfolding main_streak
main_streak-IsLongest s stopped =
    rw (if_running-stopped s.normal (longest_of (sent_streaks s)) stopped)
      (longest_of-IsLongest (sent_streaks s))
