-- ===== src/Hiscores/Groups.antt =====
-- That the groups have every activity with a score once.
use Prim.Native.String.{String}
use ha_osrs_map.Base.{
  ℕ, ◌+◌, ◌≡◌, ◌∙◌, arith, Bool, List, [], ◌∷◌, ◌++◌, Option, none, some, if◌then◌else◌, length,
  keep_if, Bool-cases, inl, inr, ◌==◌, string_eq,
}
use ha_osrs_map.Base.Sorting.{length-keep_if-sort}
use ha_osrs_map.Hiscores.{
  ActivityEntry, ActivityGroups, ShownActivity, rank_of, shown_activity, push_to, group_entry,
  group_entries, most_first, activity_groups,
}

-- Of the entries that have a score, how many pass a test.
abbrev pub count_scored_one : (ShownActivity → Bool) → ActivityEntry → Option ℕ → ℕ
count_scored_one p entry none = 0
count_scored_one p entry (some score) = if p (shown_activity entry score) then 1 else 0

abbrev pub count_scored : (ShownActivity → Bool) → List ActivityEntry → ℕ
count_scored p [] = 0
count_scored p (entry ∷ entries) =
    count_scored_one p entry (rank_of entry.score) + count_scored p entries

abbrev pub count : (ShownActivity → Bool) → List ShownActivity → ℕ
count p list = length (keep_if p list)

abbrev count_all : (ShownActivity → Bool) → ActivityGroups → ℕ
count_all p groups = count p groups.bosses + count p groups.clues + count p groups.activities

count-append :
    (p : ShownActivity → Bool) (list : List ShownActivity) (shown : ShownActivity)
    → count p (list ++ (shown ∷ [])) ≡ count p list + (if p shown then 1 else 0)
count-append p [] shown = ground arith
count-append p (other ∷ list) shown = ground (arith, count-append p list shown)

count-push_to :
    (p : ShownActivity → Bool) (kind : String) (shown : ShownActivity) (groups : ActivityGroups)
    → count_all p (push_to kind shown groups) ≡ count_all p groups + (if p shown then 1 else 0)
count-push_to p kind shown groups = elim (Bool-cases (kind == "boss")) [
  | inl boss ↦ rw boss (omega (arith, count-append p groups.bosses shown))
  | inr other ↦ elim (Bool-cases (kind == "clue")) [
    | inl clue ↦ rw (other, clue) (omega (arith, count-append p groups.clues shown))
    | inr rest ↦ rw (other, rest) (omega (arith, count-append p groups.activities shown))
  ]
]

count-group_entry :
    (p : ShownActivity → Bool) (entry : ActivityEntry) (score : Option ℕ) (groups : ActivityGroups)
    → count_all p (group_entry entry score groups)
      ≡ count_all p groups + count_scored_one p entry score
count-group_entry p entry none groups = omega arith
count-group_entry p entry (some score) groups =
    count-push_to p entry.kind (shown_activity entry score) groups

count-group_entries :
    (p : ShownActivity → Bool) (entries : List ActivityEntry) (groups : ActivityGroups)
    → count_all p (group_entries entries groups) ≡ count_all p groups + count_scored p entries
unfolding group_entries
count-group_entries p [] groups = omega arith
count-group_entries p (entry ∷ entries) groups =
    count-group_entries p entries (group_entry entry (rank_of entry.score) groups)
    ∙ omega (arith, count-group_entry p entry (rank_of entry.score) groups)

-- The bosses, the clue scrolls and the other activities together are the entries with a score of
-- 1 or more, each in one group and once: whatever is counted, there are as many of it.
pub activity_groups-count :
    (p : ShownActivity → Bool) (entries : List ActivityEntry)
    → let groups = activity_groups entries in
      count p groups.bosses + count p groups.clues + count p groups.activities
      ≡ count_scored p entries
unfolding activity_groups
activity_groups-count p entries =
    let start : ActivityGroups = record { bosses = []; clues = []; activities = [] } in
    let groups = group_entries entries start in
    omega (
      arith,
      length-keep_if-sort most_first p groups.bosses,
      length-keep_if-sort most_first p groups.activities,
      count-group_entries p entries start,
    )
