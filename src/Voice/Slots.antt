-- ===== src/Voice/Slots.antt =====
-- The slots that a caller is offered, against the search of availability.
use mathlib.Core.Path.{subst}
use mathlib.Core.List.{append_assoc}
use appointment_voice_saas.Common.{
  ℕ, zero, suc, ◌+◌, ◌≤◌, ◌<◌, ◌≡◌, ap, ◌∙◌, inl, inr, Option, some, true, List, [], ◌∷◌, ◌++◌, leb,
  Bool-cases, length, take, All, All-append, arith,
}
use appointment_voice_saas.Tables.{Db, VoiceSession}
use appointment_voice_saas.Errors.{ok, bind_ok, or_raise_ok, or_raise, never_ends}
use appointment_voice_saas.Env.{Env}
use appointment_voice_saas.Availability.Search.{get_available_slots}
use appointment_voice_saas.Availability.Search.Free.{has_slot}
use appointment_voice_saas.Voice.Queries.{slots_on, collect_slots, find_slots}

-- The search of a day within the bounds has this slot.
abbrev pub Found : Env → Db → VoiceSession → ℕ → Option ℕ → ℕ → ℕ → ℕ × ℕ → Type 0
Found env db session service_id staff_id first last slot =
    (day : ℕ) × (slots : List (ℕ × ℕ)) × (first ≤ day)
    × (day < last)
    × (get_available_slots env.now env.to_utc db session.tenant_id session.business_id service_id
          staff_id day
        ≡ ok (some slots))
    × (has_slot slot.0 slot.1 slots ≡ true)

-- Every slot of a list is in the list.
has_slot-all :
    (before slots : List (ℕ × ℕ))
    → All (λ (c : ℕ × ℕ). has_slot c.0 c.1 (before ++ slots) ≡ true) slots
has_slot-all before [] = tt
has_slot-all before (c ∷ slots) = (
  has_slot-middle before,
  subst (λ (all : List (ℕ × ℕ)). All (λ (d : ℕ × ℕ). has_slot d.0 d.1 all ≡ true) slots)
      (append_assoc before (c ∷ []) slots) (has_slot-all (before ++ c ∷ []) slots),
)
  where
    has_slot-middle : (front : List (ℕ × ℕ)) → has_slot c.0 c.1 (front ++ c ∷ slots) ≡ true
    has_slot-middle [] = ground arith
    has_slot-middle (d ∷ front) = ground (arith, has_slot-middle front)

All-weaken :
    (P Q : ℕ × ℕ → Type 0) (slots : List (ℕ × ℕ))
    → ((c : ℕ × ℕ) → P c → Q c)
    → All P slots
    → All Q slots
All-weaken P Q [] weaker all = tt
All-weaken P Q (c ∷ slots) weaker all = (weaker c all.0, All-weaken P Q slots weaker all.1)

All-take : (P : ℕ × ℕ → Type 0) (n : ℕ) (slots : List (ℕ × ℕ)) → All P slots → All P (take n slots)
All-take P zero slots all = tt
All-take P (suc n) [] all = tt
All-take P (suc n) (c ∷ slots) all = (all.0, All-take P n slots all.1)

length-take : (n : ℕ) (slots : List (ℕ × ℕ)) → length (take n slots) ≤ n
length-take zero slots = omega arith
length-take (suc n) [] = omega arith
length-take (suc n) (c ∷ slots) = omega (arith, length-take n slots)

same_ok : (a b : List (ℕ × ℕ)) → ok a ≡ ok b → a ≡ b
same_ok a b h = cc

module _ (env : Env) (db : Db) (session : VoiceSession) (service_id : ℕ) (staff_id : Option ℕ)
    (first : ℕ) where
  abbrev In : ℕ → ℕ × ℕ → Type 0
  In last = Found env db session service_id staff_id first last

  slots_on-Found :
      (day : ℕ) (slots : List (ℕ × ℕ))
      → first ≤ day
      → slots_on env db session service_id staff_id day ≡ ok slots
      → All (In (day + 1)) slots
  unfolding slots_on
  slots_on-Found day slots from h =
      let (o, searched, found) =
        bind_ok _ (λ (o : Option (List (ℕ × ℕ))). or_raise o never_ends) slots h in
      let same = or_raise_ok o never_ends slots found in
      All-weaken _ (In (day + 1)) slots
        (λ c listed. (day, slots, from, omega arith, searched ∙ ap ok same, listed))
        (has_slot-all [] slots)

  later : (a b : ℕ) (slots : List (ℕ × ℕ)) → a ≤ b → All (In a) slots → All (In b) slots
  later a b slots h all =
      All-weaken (In a) (In b) slots (λ c f. (f.0, f.1, f.2, omega (arith, f.3), f.4, f.5)) all

  collect_slots-Found :
      (days day : ℕ) (collected slots : List (ℕ × ℕ))
      → first ≤ day
      → All (In day) collected
      → collect_slots env db session service_id staff_id days day collected ≡ ok slots
      → All (In (day + days)) slots
  unfolding collect_slots
  collect_slots-Found zero day collected slots from all h =
      later day (day + 0) slots (omega arith) (subst (All (In day)) (same_ok collected slots h) all)
  collect_slots-Found (suc days) day collected slots from all h =
      let (day_slots, searched, rest) = bind_ok _ _ slots h in
      let all' =
        All-append (In (day + 1)) collected day_slots
          (later day (day + 1) collected (omega arith) all)
          (slots_on-Found day day_slots from searched) in
      elim (Bool-cases (leb env.ivr_max_slots (length (collected ++ day_slots)))) [
        | inl enough ↦
            let it : ok (collected ++ day_slots) ≡ ok slots = rw enough at rest in
            later (day + 1) (day + suc days) slots (omega arith)
              (subst (All (In (day + 1))) (same_ok _ slots it) all')
        | inr more ↦
            let it : collect_slots env db session service_id staff_id days (day + 1)
                  (collected ++ day_slots)
                ≡ ok slots =
              rw more at rest in
            later (day + 1 + days) (day + suc days) slots (omega arith) (
              collect_slots-Found days (day + 1) (collected ++ day_slots) slots (omega arith) all'
                it)
      ]

-- The slots that a call is offered, when the search returns: at most the number that the settings
-- allow, and each of them in the search of availability of a day within the span of the settings,
-- from today on, for this service and staff member.
pub find_slots-Found :
    (env : Env) (db : Db) (session : VoiceSession) (service_id : ℕ) (staff_id : Option ℕ)
    (slots : List (ℕ × ℕ))
    → find_slots env db session service_id staff_id ≡ ok slots
    → (length slots ≤ env.ivr_max_slots)
      × All
          (Found env db session service_id staff_id env.today
            (env.today + env.ivr_slot_search_days))
          slots
unfolding find_slots
find_slots-Found env db session service_id staff_id slots h =
    let (collected, searched, cut) =
      bind_ok _ (λ (found : List (ℕ × ℕ)). ok (take env.ivr_max_slots found)) slots h in
    let same : take env.ivr_max_slots collected ≡ slots = same_ok _ slots cut in
    (
      subst (λ (found : List (ℕ × ℕ)). length found ≤ env.ivr_max_slots) same
          (length-take env.ivr_max_slots collected),
      subst
          (All (
            Found env db session service_id staff_id env.today
              (env.today + env.ivr_slot_search_days)))
          same
          (All-take _ env.ivr_max_slots collected (
            collect_slots-Found env db session service_id staff_id env.today
              env.ivr_slot_search_days env.today [] collected (omega arith) tt searched)),
    )
