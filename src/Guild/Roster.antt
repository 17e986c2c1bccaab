-- ===== src/Guild/Roster.antt =====
-- Who is a member after a poll, and what the last list of members that was told has in it.
use Prim.Native.String.{String}
use ha_osrs_map.Base.{
  ℕ, ◌≡◌, refl, ap, sym, ◌∙◌, Bool, true, false, not, ◌&&◌, List, [], ◌∷◌, Option, none, some,
  if◌then◌else◌, Bool-cases, inl, inr, string_eq, arith,
}
use ha_osrs_map.Base.Dict.{Dict, get, has, keys, has-put, has-delete, has-get}
use ha_osrs_map.Base.Sets.{contains, add, set_of, add_all, contains-add}
use ha_osrs_map.Members.{Member, PolledData, StoredData}
use ha_osrs_map.Guild.{
  Entry, Poll, GuildData, Round, enter, enter_all, take_for, take_data, ask_all, request_reload,
  leave_unless, leave_all, entry_names, gather, conclude, update_guild,
}

contains-add_all :
    (name : String) (names s : List String)
    → contains name (add_all names s) ≡ (if contains name names then true else contains name s)
unfolding contains
contains-add_all name [] s = refl
contains-add_all name (other ∷ names) s =
    contains-add_all name names (add other s)
    ∙ rw (contains-add other name s) elim (Bool-cases (contains name names)) [
      | inl c ↦ rw c elim (Bool-cases (string_eq.beq other name)) [ inl e ↦ rw e | inr e ↦ rw e ]
      | inr c ↦ rw c elim (Bool-cases (string_eq.beq other name)) [ inl e ↦ rw e | inr e ↦ rw e ]
    ]

contains-set_of :
    (name : String) (names : List String) → contains name (set_of names) ≡ contains name names
unfolding contains
contains-set_of name names =
    contains-add_all name names []
    ∙ elim (Bool-cases (contains name names)) [ inl c ↦ rw c | inr c ↦ rw c ]

module _ {μ} {Meta : Type μ} where
  pub has-enter :
      (name : String) (entry : Entry) (r : Round Meta)
      → has name (enter entry r).members
        ≡ (if string_eq.beq entry.name name then true else has name r.members)
  unfolding enter
  has-enter name entry r = has-put entry.name name _ r.members

  has-enter_all :
      (name : String) (entries : List Entry) (r : Round Meta)
      → has name (enter_all entries r).members
        ≡ (if contains name (entry_names entries) then true else has name r.members)
  unfolding enter_all contains
  has-enter_all name [] r = refl
  has-enter_all name (entry ∷ entries) r =
      rw (has-enter_all name entries (enter entry r), has-enter name entry r)
        elim (Bool-cases (string_eq.beq entry.name name)) [
          | inl e ↦ rw e elim (Bool-cases (contains name (entry_names entries))) [
            | inl c ↦ rw c
            | inr c ↦ rw c
          ]
          | inr e ↦ rw e
        ]

  module _ (names : Dict ℕ String) (known : ℕ → Bool) where
    has-take_for :
        (name other : String) (polled : PolledData Meta) (found : Option (Member Meta))
        (r : Round Meta)
        → get other r.members ≡ found
        → has name (take_for names known other polled found r).members ≡ has name r.members
    has-take_for name other polled none r e = refl
    has-take_for name other polled (some m) r e =
        has-put other name _ r.members ∙ elim (Bool-cases (string_eq.beq other name)) [
          | inl same ↦ rw same (
              sym (
                ap (λ n. has n r.members) (sym ((string_eq.beq_iff other name).0 same))
                ∙ has-get other r.members e))
          | inr different ↦ rw different
        ]

    has-take_data :
        (name : String) (data_of : List (String × StoredData Meta)) (r : Round Meta)
        → has name (take_data names known data_of r).members ≡ has name r.members
    unfolding take_data
    has-take_data name [] r = refl
    has-take_data name ((other, stored) ∷ data_of) r =
        has-take_data name data_of _ ∙ has-take_for name other _ (get other r.members) r refl

  has-ask_all :
      (name : String) (members : Dict String (Member Meta))
      → has name (ask_all members) ≡ has name members
  unfolding ask_all has
  has-ask_all name [] = refl
  has-ask_all name ((other, m) ∷ members) = ground (arith, has-ask_all name members)

  has-request_reload :
      (name : String) (r : Round Meta) → has name (request_reload r).members ≡ has name r.members
  has-request_reload name r = elim (Bool-cases r.needs_full_reload) [
    | inl e ↦ rw e (has-ask_all name r.members)
    | inr e ↦ rw e
  ]

  contains-keys :
      (name : String) (members : Dict String (Member Meta))
      → contains name (keys members) ≡ has name members
  unfolding contains has
  contains-keys name [] = refl
  contains-keys name ((other, m) ∷ members) = ground (arith, contains-keys name members)

  has-leave_unless :
      (name other : String) (on_roster : List String) (r : Round Meta)
      → has name (leave_unless on_roster other r).members ≡ (
          if string_eq.beq other name && not (contains name on_roster)
          then false
          else has name r.members)
  has-leave_unless name other on_roster r = elim (Bool-cases (string_eq.beq other name)) [
    | inl same ↦
        let e = (string_eq.beq_iff other name).0 same in
        elim (Bool-cases (contains name on_roster)) [
          | inl c ↦ rw (same, c, ap (λ n. contains n on_roster) e ∙ c)
          | inr c ↦
              rw (same, c, ap (λ n. contains n on_roster) e ∙ c)
                (has-delete other name r.members ∙ rw same)
        ]
    | inr different ↦ elim (Bool-cases (contains other on_roster)) [
      | inl c ↦ rw (different, c)
      | inr c ↦ rw (different, c) (has-delete other name r.members ∙ rw different)
    ]
  ]

  has-leave_all :
      (name : String) (names on_roster : List String) (r : Round Meta)
      → has name (leave_all names on_roster r).members ≡ (
          if contains name names && not (contains name on_roster)
          then false
          else has name r.members)
  unfolding leave_all contains
  has-leave_all name [] on_roster r = refl
  has-leave_all name (other ∷ names) on_roster r =
      has-leave_all name names on_roster (leave_unless on_roster other r)
      ∙ rw (has-leave_unless name other on_roster r) elim (Bool-cases (string_eq.beq other name)) [
        | inl same ↦
            rw same
              elim (Bool-cases (contains name names)) [ inl c ↦ rw c (ground arith) | inr c ↦ rw c ]
        | inr different ↦ rw different
      ]

  -- After a poll, someone is a member exactly when the poll's roster names them: whoever it names
  -- has joined, and whoever it leaves out is gone, data and all.
  pub update_guild-members :
      (le : String → String → Bool) (names : Dict ℕ String) (known : ℕ → Bool) (poll : Poll Meta)
      (guild : GuildData Meta) (name : String)
      → has name (update_guild le names known poll guild).guild.members
        ≡ contains name (entry_names poll.roster)
  unfolding update_guild conclude gather
  update_guild-members le names known poll guild name =
      let start : Round Meta = record {
        members = guild.members;
        told = [];
        changed = [];
        online_changed = false;
        needs_full_reload = false;
      } in
      let entered = enter_all poll.roster start in
      let taken = take_data names known poll.data_of entered in
      let asked = request_reload taken in
      let on_roster = set_of (entry_names poll.roster) in
      let same : has name asked.members ≡ has name entered.members =
        has-request_reload name taken ∙ has-take_data names known name poll.data_of entered in
      has-leave_all name (keys asked.members) on_roster asked
      ∙ rw
          (
            contains-keys name asked.members,
            contains-set_of name (entry_names poll.roster),
            same,
            has-enter_all name poll.roster start,
          )
          elim (Bool-cases (contains name (entry_names poll.roster))) [
            | inl c ↦ rw c
            | inr c ↦
                rw c elim (Bool-cases (has name guild.members)) [ inl h ↦ rw h | inr h ↦ rw h ]
          ]
