-- ===== src/Guild/Coherent.antt =====
-- That every member stays coherent, whatever the polls bring.
use Prim.Native.String.{String}
use ha_osrs_map.Base.{
  ℕ, ◌≡◌, refl, subst, Bool, List, [], ◌∷◌, Option, none, some, Bool-cases, inl, inr, string_eq, Eq,
}
use ha_osrs_map.Base.Dict.{Dict, get, put, delete}
use ha_osrs_map.Base.Sets.{contains}
use ha_osrs_map.Members.{Member, PolledData, StoredData}
use ha_osrs_map.Members.Update.{update_presence}
use ha_osrs_map.Members.Sections.{IsCoherent}
use ha_osrs_map.Members.Coherent.{update-IsCoherent, new_member-IsCoherent}
use ha_osrs_map.Guild.{
  Entry, Poll, GuildData, Round, member_or_new, enter, enter_all, take_for, take_data, ask, asks,
  ask_all, request_reload, leave_unless, leave_all, gather, conclude, update_guild,
}

module _ {ℓ κ π} {K : Type ℓ} {V : Type κ} (P : V → Type π) where
  -- A predicate on every value.
  abbrev pub AllValues : Dict K V → Type π
  AllValues [] = Unit
  AllValues ((k, v) ∷ m) = P v × AllValues m

module _ {ℓ κ π} {K : Type ℓ} {V : Type κ} ⦃e : Eq K⦄ (P : V → Type π) where
  AllValues-put : (k : K) (v : V) (m : Dict K V) → P v → AllValues P m → AllValues P (put k v m)
  unfolding put
  AllValues-put k v [] p h = (p, tt)
  AllValues-put k v ((j, w) ∷ m) p h = elim (Bool-cases (e.beq j k)) [
    | inl s ↦ rw s (p, h.1)
    | inr s ↦ rw s (h.0, AllValues-put k v m p h.1)
  ]

  AllValues-delete : (k : K) (m : Dict K V) → AllValues P m → AllValues P (delete k m)
  unfolding delete
  AllValues-delete k [] h = tt
  AllValues-delete k ((j, w) ∷ m) h = elim (Bool-cases (e.beq j k)) [
    | inl s ↦ rw s (AllValues-delete k m h.1)
    | inr s ↦ rw s (h.0, AllValues-delete k m h.1)
  ]

  AllValues-get : (k : K) (m : Dict K V) (v : V) → AllValues P m → get k m ≡ some v → P v
  unfolding get
  AllValues-get k [] v h s = cc
  AllValues-get k ((j, w) ∷ m) v h s = elim (Bool-cases (e.beq j k)) [
    | inl t ↦ let found : some w ≡ some v = rw t at s in let same : w ≡ v = cc in subst P same h.0
    | inr t ↦ AllValues-get k m v h.1 (rw t at s)
  ]

module _ {μ} {Meta : Type μ} (names : Dict ℕ String) (known : ℕ → Bool) where
  abbrev pub AllCoherent : Dict String (Member Meta) → Type 0
  AllCoherent members = AllValues (IsCoherent names known) members

  member_or_new-IsCoherent :
      (name : String) (members : Dict String (Member Meta)) (found : Option (Member Meta))
      → get name members ≡ found
      → AllCoherent members
      → IsCoherent names known (member_or_new name found)
  member_or_new-IsCoherent name members none e h = new_member-IsCoherent Meta names known name
  member_or_new-IsCoherent name members (some m) e h =
      AllValues-get (IsCoherent names known) name members m h e

  enter-AllCoherent :
      (entry : Entry) (r : Round Meta) → AllCoherent r.members → AllCoherent (enter entry r).members
  unfolding enter update_presence
  enter-AllCoherent entry r h =
      AllValues-put (IsCoherent names known) entry.name _ r.members
        (member_or_new-IsCoherent entry.name r.members (get entry.name r.members) refl h) h

  enter_all-AllCoherent :
      (entries : List Entry) (r : Round Meta)
      → AllCoherent r.members
      → AllCoherent (enter_all entries r).members
  unfolding enter_all
  enter_all-AllCoherent [] r h = h
  enter_all-AllCoherent (entry ∷ entries) r h =
      enter_all-AllCoherent entries (enter entry r) (enter-AllCoherent entry r h)

  take_for-AllCoherent :
      (name : String) (polled : PolledData Meta) (found : Option (Member Meta)) (r : Round Meta)
      → get name r.members ≡ found
      → AllCoherent r.members
      → AllCoherent (take_for names known name polled found r).members
  take_for-AllCoherent name polled none r e h = h
  take_for-AllCoherent name polled (some m) r e h =
      AllValues-put (IsCoherent names known) name _ r.members
        (update-IsCoherent names known polled m
          (AllValues-get (IsCoherent names known) name r.members m h e))
        h

  take_data-AllCoherent :
      (data_of : List (String × StoredData Meta)) (r : Round Meta)
      → AllCoherent r.members
      → AllCoherent (take_data names known data_of r).members
  unfolding take_data
  take_data-AllCoherent [] r h = h
  take_data-AllCoherent ((name, stored) ∷ data_of) r h =
      take_data-AllCoherent data_of _ (take_for-AllCoherent name _ (get name r.members) r refl h)

  ask-IsCoherent : (m : Member Meta) → IsCoherent names known m → IsCoherent names known (ask m)
  ask-IsCoherent m h = elim (Bool-cases (asks m)) [ inl e ↦ rw e h | inr e ↦ rw e h ]

  ask_all-AllCoherent :
      (members : Dict String (Member Meta)) → AllCoherent members → AllCoherent (ask_all members)
  unfolding ask_all
  ask_all-AllCoherent [] h = tt
  ask_all-AllCoherent ((name, m) ∷ members) h =
      (ask-IsCoherent m h.0, ask_all-AllCoherent members h.1)

  request_reload-AllCoherent :
      (r : Round Meta) → AllCoherent r.members → AllCoherent (request_reload r).members
  request_reload-AllCoherent r h = elim (Bool-cases r.needs_full_reload) [
    | inl e ↦ rw e (ask_all-AllCoherent r.members h)
    | inr e ↦ rw e h
  ]

  leave_unless-AllCoherent :
      (on_roster : List String) (name : String) (r : Round Meta)
      → AllCoherent r.members
      → AllCoherent (leave_unless on_roster name r).members
  leave_unless-AllCoherent on_roster name r h = elim (Bool-cases (contains name on_roster)) [
    | inl c ↦ rw c h
    | inr c ↦ rw c (AllValues-delete (IsCoherent names known) name r.members h)
  ]

  leave_all-AllCoherent :
      (leaving on_roster : List String) (r : Round Meta)
      → AllCoherent r.members
      → AllCoherent (leave_all leaving on_roster r).members
  unfolding leave_all
  leave_all-AllCoherent [] on_roster r h = h
  leave_all-AllCoherent (name ∷ leaving) on_roster r h =
      leave_all-AllCoherent leaving on_roster _ (leave_unless-AllCoherent on_roster name r h)

  -- A poll keeps every member coherent: those who stay, those it brings data of and those who join.
  -- Each one's place is that of the coordinates, the quantities are those of the items, there is no
  -- combat level without skills, and where all seven skills that count are there it is the one
  -- worked out from them.
  pub update_guild-AllCoherent :
      (le : String → String → Bool) (poll : Poll Meta) (guild : GuildData Meta)
      → AllCoherent guild.members
      → AllCoherent (update_guild le names known poll guild).guild.members
  unfolding update_guild conclude gather
  update_guild-AllCoherent le poll guild h = leave_all-AllCoherent _ _ _ (
      request_reload-AllCoherent _
        (take_data-AllCoherent poll.data_of _ (enter_all-AllCoherent poll.roster _ h)))
