-- ===== src/TrailLoads/Current.antt =====
-- That what is on the map is what is selected, in whatever order the answers come.
use ha_osrs_map.Base.{
  is_empty, ℕ, suc, ◌≤◌, ◌≡◌, refl, sym, subst, arith, Bool, true, not, ◌||◌, List, [], ◌∷◌, some,
  nat_beq, Bool-cases, inl, inr, get_elem?, All, All-map, All-get_elem?, Eq,
}
use ha_osrs_map.Base.Dict.{Dict, put, delete}
use ha_osrs_map.Base.Sets.{contains}
use ha_osrs_map.TrailLoads.{
  TrailReply, Answer, trails, failed, Request, TrailLoads, keep_named, by_member, set_each,
  load_trails, use_answer, take_answer, IsOf, Step, loads, answers, leaves, Reaches, start,
  then_step,
}

module _ {ν} {Name : Type ν} ⦃n : Eq Name⦄ where
  -- Every key is one of these names.
  abbrev pub AreOf {ℓ} : {A : Type ℓ} → List Name → Dict Name A → Type 0
  AreOf names [] = Unit
  AreOf names ((name, a) ∷ m) = (contains name names ≡ true) × AreOf names m

  keep_named-AreOf {ℓ} :
      {A : Type ℓ} (names : List Name) (m : Dict Name A) → AreOf names (keep_named names m)
  unfolding keep_named
  keep_named-AreOf names [] = tt
  keep_named-AreOf names ((name, a) ∷ m) = elim (Bool-cases (contains name names)) [
    | inl there ↦ rw there (there, keep_named-AreOf names m)
    | inr gone ↦ rw gone (keep_named-AreOf names m)
  ]

  put-AreOf {ℓ} :
      {A : Type ℓ} (names : List Name) (name : Name) (a : A) (m : Dict Name A)
      → contains name names ≡ true
      → AreOf names m
      → AreOf names (put name a m)
  unfolding put
  put-AreOf names name a [] h all = (h, tt)
  put-AreOf names name a ((other, b) ∷ m) h all = elim (Bool-cases (n.beq other name)) [
    | inl same ↦ rw same all
    | inr different ↦ rw different (all.0, put-AreOf names name a m h all.1)
  ]

  delete-AreOf {ℓ} :
      {A : Type ℓ} (names : List Name) (name : Name) (m : Dict Name A)
      → AreOf names m
      → AreOf names (delete name m)
  unfolding delete
  delete-AreOf names name [] all = tt
  delete-AreOf names name ((other, b) ∷ m) all = elim (Bool-cases (n.beq other name)) [
    | inl same ↦ rw same (delete-AreOf names name m all.1)
    | inr different ↦ rw different (all.0, delete-AreOf names name m all.1)
  ]

  module _ {ρ} {Raw : Type ρ} (names : List Name) where
    by_member-AreOf :
        (replies : List (TrailReply Name Raw)) (m : Dict Name (TrailReply Name Raw))
        → All (λ r. contains r.member names ≡ true) replies
        → AreOf names m
        → AreOf names (by_member replies m)
    unfolding by_member
    by_member-AreOf [] m of all = all
    by_member-AreOf (reply ∷ replies) m of all =
        by_member-AreOf replies _ of.1 (put-AreOf names reply.member reply m of.0 all)

    set_each-AreOf {σ} :
        {Span : Type σ} (span : Span) (replies : List (TrailReply Name Raw))
        (m : Dict Name (Raw × Span))
        → All (λ r. contains r.member names ≡ true) replies
        → AreOf names m
        → AreOf names (set_each span replies m)
    unfolding set_each
    set_each-AreOf span [] m of all = all
    set_each-AreOf span (reply ∷ replies) m of all = elim (Bool-cases reply.shared) [
      | inl shared ↦ rw shared (
          set_each-AreOf span replies _ of.1
            (put-AreOf names reply.member (reply.raw, span) m of.0 all))
      | inr hidden ↦
          rw hidden (set_each-AreOf span replies _ of.1 (delete-AreOf names reply.member m all))
    ]

  module _ {ρ σ} {Raw : Type ρ} {Span : Type σ} where
    -- No request has a later number than the last, and the last is for those who are selected.
    abbrev IsAsked : TrailLoads Name Raw Span → Request Name Span → Type ν
    IsAsked s r = (r.id ≤ s.request_id) × (r.id ≡ s.request_id → r.names ≡ s.selected)

    pub record IsCurrent (s : TrailLoads Name Raw Span) : Type (ν ⊔ σ) where
      pub shown : AreOf s.selected s.on_map
      pub known : AreOf s.selected s.trail_data
      pub asked : All (IsAsked s) s.under_way

    load_trails-IsCurrent :
        (names : List Name) (span : Span) (has_history : Bool) (s : TrailLoads Name Raw Span)
        → IsCurrent s
        → IsCurrent (load_trails names span has_history s)
    unfolding load_trails
    load_trails-IsCurrent names span has_history s v =
        let shown = keep_named-AreOf names s.on_map in
        let known = keep_named-AreOf names s.trail_data in
        let asked =
          All-map (IsAsked s)
            {Q = λ r. (r.id ≤ suc s.request_id) × (r.id ≡ suc s.request_id → r.names ≡ names)}
            s.under_way (λ r a. (omega (arith, a.0), λ same. absurd (omega (arith, a.0, same))))
            v.asked in
        elim (Bool-cases (is_empty names || not has_history)) [
          | inl nothing ↦ rw nothing (record { shown = shown; known = known; asked = asked })
          | inr some' ↦ rw some' (record {
            shown = shown;
            known = known;
            asked = ((omega arith, λ same. refl), asked);
          })
        ]

    use_answer-IsCurrent :
        (span : Span) (answer : Answer Name Raw) (s : TrailLoads Name Raw Span)
        → IsOf s.selected answer
        → IsCurrent s
        → IsCurrent (use_answer span answer s)
    use_answer-IsCurrent span (trails replies stale) s of v = record {
      shown = set_each-AreOf s.selected span replies s.on_map of v.shown;
      known = by_member-AreOf s.selected replies [] of tt;
      asked = v.asked;
    }
    use_answer-IsCurrent span (failed busy) s of v = record {
      shown = v.shown;
      known = v.known;
      asked = v.asked;
    }

    Step-IsCurrent : {s t : TrailLoads Name Raw Span} → Step s t → IsCurrent s → IsCurrent t
    unfolding take_answer
    Step-IsCurrent {s} (loads names span has_history) v =
        load_trails-IsCurrent names span has_history s v
    Step-IsCurrent {s} (answers i request answer there of) v =
        let asked = All-get_elem? (IsAsked s) s.under_way i v.asked there in
        elim (Bool-cases (not s.connected || not (nat_beq request.id s.request_id))) [
          | inl overtaken ↦ rw overtaken v
          | inr last ↦
              let names = asked.1 (ground (arith, last)) in
              rw last
                (use_answer-IsCurrent request.span answer s (subst (λ l. IsOf l answer) names of) v)
        ]
    Step-IsCurrent leaves v = record { shown = tt; known = v.known; asked = v.asked }

    Reaches-IsCurrent : {s t : TrailLoads Name Raw Span} → Reaches s t → IsCurrent s → IsCurrent t
    Reaches-IsCurrent start v = v
    Reaches-IsCurrent (then_step r step) v = Step-IsCurrent step (Reaches-IsCurrent r v)

    -- Nothing has been asked for, and nothing is on the map.
    abbrev pub IsNew : TrailLoads Name Raw Span → Type (ν ⊔ ρ ⊔ σ)
    IsNew s = (s.on_map ≡ []) × (s.trail_data ≡ []) × (s.under_way ≡ [])

    IsNew-IsCurrent : (s : TrailLoads Name Raw Span) → IsNew s → IsCurrent s
    IsNew-IsCurrent s new = record {
      shown = subst (AreOf s.selected) (sym new.0) tt;
      known = subst (AreOf s.selected) (sym new.1) tt;
      asked = subst (All (IsAsked s)) (sym new.2) tt;
    }

    -- In whatever order requests are made and answered, only trails of those who are selected are
    -- on the map or kept, if the server answers with trails of those it was asked for.
    pub Reaches-selected :
        {s t : TrailLoads Name Raw Span}
        → IsNew s
        → Reaches s t
        → AreOf t.selected t.on_map × AreOf t.selected t.trail_data
    Reaches-selected {s} new r =
        let v = Reaches-IsCurrent r (IsNew-IsCurrent s new) in (v.shown, v.known)

    -- A request overtakes all those before it: what any of them is answered changes nothing.
    pub load_trails-overtakes :
        {s t : TrailLoads Name Raw Span} (i : ℕ) (request : Request Name Span)
        (answer : Answer Name Raw) (names : List Name) (span : Span) (has_history : Bool)
        → IsNew s
        → Reaches s t
        → get_elem? t.under_way i ≡ some request
        → take_answer request answer (load_trails names span has_history t)
          ≡ load_trails names span has_history t
    unfolding take_answer load_trails
    load_trails-overtakes {s} {t} i request answer names span has_history new r there =
        let v = Reaches-IsCurrent r (IsNew-IsCurrent s new) in
        let asked = All-get_elem? (IsAsked t) t.under_way i v.asked there in ground (arith, asked.0)
