-- ===== src/Guild/Reload.antt =====
-- When a poll asks for a full reload.
use Prim.Native.String.{String}
use ha_osrs_map.Base.{
  ℕ, ◌≡◌, refl, ◌∙◌, Bool, true, false, List, [], ◌∷◌, Option, none, some, Bool-cases, inl, inr,
  string_eq, All, All-map,
}
use ha_osrs_map.Base.Dict.{Dict, get, has, keys}
use ha_osrs_map.Base.Sets.{contains, set_of}
use ha_osrs_map.Members.{Member, PolledData, StoredData}
use ha_osrs_map.Guild.{
  Entry, Poll, GuildData, Round, enter, enter_all, take_for, take_data, request_reload,
  leave_unless, leave_all, entry_names, gather, conclude, update_guild, time_or_zero,
}
use ha_osrs_map.Guild.Roster.{has-enter}

module _ {μ} {Meta : Type μ} where
  enter-known :
      (entry : Entry) (r : Round Meta)
      → has entry.name r.members ≡ true
      → (enter entry r).needs_full_reload ≡ r.needs_full_reload
  unfolding enter
  enter-known entry r h = rw h elim (Bool-cases r.needs_full_reload) [ inl e ↦ rw e | inr e ↦ rw e ]

  -- Everyone whom a list of entries names is a member.
  abbrev pub AllKnown : Dict String (Member Meta) → List Entry → Type 0
  AllKnown members entries = All (λ entry. has entry.name members ≡ true) entries

  enter-AllKnown :
      (entry : Entry) (entries : List Entry) (r : Round Meta)
      → AllKnown r.members entries
      → AllKnown (enter entry r).members entries
  enter-AllKnown entry entries r h =
      All-map _ entries
        (λ (other : Entry) (e : has other.name r.members ≡ true).
          has-enter other.name entry r
          ∙ rw e elim (Bool-cases (string_eq.beq entry.name other.name)) [
            | inl s ↦ rw s
            | inr s ↦ rw s
          ])
        h

  enter_all-known :
      (entries : List Entry) (r : Round Meta)
      → AllKnown r.members entries
      → (enter_all entries r).needs_full_reload ≡ r.needs_full_reload
  unfolding enter_all
  enter_all-known [] r h = refl
  enter_all-known (entry ∷ entries) r h =
      enter_all-known entries (enter entry r) (enter-AllKnown entry entries r h.1)
      ∙ enter-known entry r h.0

  take_for-reload :
      (names : Dict ℕ String) (known : ℕ → Bool) (other : String) (polled : PolledData Meta)
      (found : Option (Member Meta)) (r : Round Meta)
      → (take_for names known other polled found r).needs_full_reload ≡ r.needs_full_reload
  take_for-reload names known other polled none r = refl
  take_for-reload names known other polled (some m) r = refl

  take_data-reload :
      (names : Dict ℕ String) (known : ℕ → Bool) (data_of : List (String × StoredData Meta))
      (r : Round Meta)
      → (take_data names known data_of r).needs_full_reload ≡ r.needs_full_reload
  unfolding take_data
  take_data-reload names known [] r = refl
  take_data-reload names known ((other, stored) ∷ data_of) r =
      take_data-reload names known data_of _
      ∙ take_for-reload names known other _ (get other r.members) r

  leave_unless-reload :
      (on_roster : List String) (name : String) (r : Round Meta)
      → (leave_unless on_roster name r).needs_full_reload ≡ r.needs_full_reload
  leave_unless-reload on_roster name r = elim (Bool-cases (contains name on_roster)) [
    | inl c ↦ rw c
    | inr c ↦ rw c
  ]

  leave_all-reload :
      (names on_roster : List String) (r : Round Meta)
      → (leave_all names on_roster r).needs_full_reload ≡ r.needs_full_reload
  unfolding leave_all
  leave_all-reload [] on_roster r = refl
  leave_all-reload (name ∷ names) on_roster r =
      leave_all-reload names on_roster _ ∙ leave_unless-reload on_roster name r

  -- A poll whose roster names members only asks for no reload: the next poll starts where this one
  -- ended.
  pub update_guild-from_time :
      (le : String → String → Bool) (names : Dict ℕ String) (known : ℕ → Bool) (poll : Poll Meta)
      (guild : GuildData Meta)
      → AllKnown guild.members poll.roster
      → (update_guild le names known poll guild).from_time ≡ time_or_zero poll.cursor
  unfolding update_guild conclude gather
  update_guild-from_time le names known poll guild h =
      let start : Round Meta = record {
        members = guild.members;
        told = [];
        changed = [];
        online_changed = false;
        needs_full_reload = false;
      } in
      let entered = enter_all poll.roster start in
      let taken = take_data names known poll.data_of entered in
      let calm : taken.needs_full_reload ≡ false =
        take_data-reload names known poll.data_of entered ∙ enter_all-known poll.roster start h in
      let asked : (request_reload taken).needs_full_reload ≡ false = rw calm in
      let left =
        leave_all-reload (keys (request_reload taken).members) (set_of (entry_names poll.roster))
          (request_reload taken) in
      rw (left ∙ asked)
