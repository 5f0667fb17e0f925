-- ===== src/Voice/Offers.antt =====
-- What a caller is offered: numbered options, and the staff members in a new order.
use mathlib.Core.Path.{subst}
use mathlib.Core.List.{Perm, perm_middle}
use mathlib.Core.List.Perm
use appointment_voice_saas.Common.{
  ℕ, zero, suc, ◌+◌, ◌<◌, ◌^◌, ◌==◌, ◌≡◌, refl, ap, sym, ◌∙◌, inl, inr, String, Option, none, some,
  Bool, not, List, [], ◌∷◌, ◌++◌, Bool-cases, filter_by, length, arith, ==_iff,
}
use appointment_voice_saas.Common.Decimal.{decimal}
use appointment_voice_saas.Tables.{Db, Staff, VoiceSession}
use appointment_voice_saas.Env.{Env}
use appointment_voice_saas.PublicLinks.Tokens.{int_of-decimal}
use appointment_voice_saas.Voice.Responses.{IvrOption, numbered}
use appointment_voice_saas.Voice.Steps.{element, chosen}
use appointment_voice_saas.Voice.Queries.{
  preferred_first, reorder_by, last_used_staff_id, reorder_preferred_staff,
}

element-numbered :
    (k i : ℕ) (labels : List String) (o : IvrOption)
    → element (numbered k labels) i ≡ some o
    → (o.key ≡ decimal (k + i + 1)) × (i < length labels)
element-numbered k i [] o h = cc
element-numbered k zero (label ∷ labels) o h =
    let first : decimal (k + 1) ≡ o.key = ap (λ (p : Option IvrOption). key_of p) h in
    (sym first ∙ ap decimal (omega arith), omega arith)
  where
    key_of : Option IvrOption → String
    key_of none = ""
    key_of (some p) = p.key
element-numbered k (suc i) (label ∷ labels) o h =
    let (key, few) = element-numbered (k + 1) i labels o h in
    (key ∙ ap decimal (omega arith), omega arith)

-- The key of an option that is read out chooses what stands at its place in the list behind the
-- menu, whatever that list is, as long as `int` can read the numbers of its options.
pub chosen-numbered {ℓ} :
    {A : Type ℓ} (env : Env) (labels : List String) (xs : List A) (i : ℕ) (o : IvrOption)
    → element (numbered 0 labels) i ≡ some o
    → length labels < 10 ^ 4300
    → chosen env o.key xs ≡ element xs i
unfolding chosen
chosen-numbered env labels xs i o listed fits =
    let (key, few) = element-numbered 0 i labels o listed in
    let number : o.key ≡ decimal (suc i) = key ∙ ap decimal (omega arith) in
    rw (number, int_of-decimal env (suc i) (omega arith))

split_perm {ℓ} :
    {A : Type ℓ} (p : A → Bool) (xs : List A)
    → Perm (filter_by p xs ++ filter_by (λ x. not (p x)) xs) xs
split_perm p [] = Perm.refl []
split_perm p (x ∷ xs) = elim (Bool-cases (p x)) [
  | inl hit ↦ rw hit (Perm.cons x (split_perm p xs))
  | inr miss ↦ rw miss (
      Perm.trans (perm_middle (filter_by p xs) (filter_by (λ y. not (p y)) xs))
        (Perm.cons x (split_perm p xs)))
]

-- The preferred staff member, if there is one, leads the menu.
abbrev pub Leads : List Staff × Option ℕ → Type 0
Leads (members, none) = Unit {0}
Leads (members, some preferred_id) =
    (m : Staff) × (rest : List Staff) × (members ≡ m ∷ rest) × (m.id ≡ preferred_id)

filter_by-head :
    (i : ℕ) (members : List Staff) (m : Staff) (more : List Staff)
    → filter_by (λ (s : Staff). s.id == i) members ≡ m ∷ more
    → m.id ≡ i
filter_by-head i [] m more h = cc
filter_by-head i (s ∷ members) m more h = elim (Bool-cases (s.id == i)) [
  | inl hit ↦
      let listed : s ∷ filter_by (λ (c : Staff). c.id == i) members ≡ m ∷ more = rw hit at h in
      let same : s ≡ m = cc in ap (λ (c : Staff). c.id) (sym same) ∙ (==_iff s.id i).0 hit
  | inr miss ↦ filter_by-head i members m more (rw miss at h)
]

reorder_by-Perm :
    (preferred : Option ℕ) (members : List Staff)
    → Perm (reorder_by preferred members).0 members × Leads (reorder_by preferred members)
unfolding reorder_by
reorder_by-Perm none members = (Perm.refl members, tt)
reorder_by-Perm (some i) members = by_match (filter_by (λ (s : Staff). s.id == i) members) refl
  where
    by_match :
        (found : List Staff)
        → filter_by (λ (s : Staff). s.id == i) members ≡ found
        → Perm (preferred_first found members i).0 members × Leads (preferred_first found members i)
    by_match [] e = (Perm.refl members, tt)
    by_match (m ∷ more) e = (
      subst
          (λ (front : List Staff).
            Perm (front ++ filter_by (λ (s : Staff). not (s.id == i)) members) members)
          e (split_perm (λ (s : Staff). s.id == i) members),
      (
        m,
        more ++ filter_by (λ (s : Staff). not (s.id == i)) members,
        refl,
        filter_by-head i members m more e,
      ),
    )

-- The menu of staff members is those who can be booked, in another order at most: none is lost and
-- none is offered twice. If it names one as seen last time, that one leads it.
pub reorder_preferred_staff-Perm :
    (env : Env) (db : Db) (session : VoiceSession) (members : List Staff)
    → Perm (reorder_preferred_staff env db session members).0 members
      × Leads (reorder_preferred_staff env db session members)
unfolding reorder_preferred_staff
reorder_preferred_staff-Perm env db session members =
    reorder_by-Perm (last_used_staff_id env db session) members
