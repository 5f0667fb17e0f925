-- ===== src/Availability/Search/Hours.antt =====
-- Where the candidate slots lie: inside the open windows of the date, and outside every block.
use appointment_voice_saas.Common.{
  ℕ, zero, suc, ◌+◌, ◌-◌, ◌*◌, ◌/◌, ◌<◌, ◌≤◌, ◌≡◌, sym, ◌∙◌, refl, List, [], ◌∷◌, ◌++◌, map, Option,
  none, some, true, ◌==◌, ==_iff, any_of-append, arith, inl, inr, ◌⊎◌, Bool-cases,
}
use appointment_voice_saas.Tables.{combine, minutes}
use appointment_voice_saas.Availability.Windows.{Window}
use appointment_voice_saas.Availability.Windows.Points.{inside, covers}
use appointment_voice_saas.Availability.Slots.{slots_in_window}
use appointment_voice_saas.Availability.Slots.Exact.{spaced, slots_in_window-spaced}
use appointment_voice_saas.Availability.Search.{append_both, candidate_starts}
use appointment_voice_saas.Availability.Search.Free.{elem}

-- A slot of a search, on the clock of the wall: it starts at `local`, and from there on for its
-- whole length every instant of the date lies in one and the same window of `ws`.
pub record Fits (to_utc : ℕ → ℕ) (date duration start : ℕ) (ws : List Window) : Type 0 where
  pub local : ℕ
  pub on_clock : to_utc (combine date local) ≡ start
  pub open_throughout : (p : ℕ) → local ≤ p → p < local + duration → covers p ws ≡ true

elem-spaced :
    (to_utc : ℕ → ℕ) (a current step n : ℕ)
    → elem a (map to_utc (spaced current step n)) ≡ true
    → (k : ℕ) × (to_utc (current + k * step) ≡ a) × (k < n)
elem-spaced to_utc a current step zero h = cc
elem-spaced to_utc a current step (suc n) h = elim (Bool-cases (to_utc current == a)) [
  | inl first ↦ (
    0,
    (let e : current + 0 * step ≡ current = omega arith in
        rw e ((==_iff (to_utc current) a).0 first)),
    omega arith,
  )
  | inr later ↦
      let (k, e, lt) = elem-spaced to_utc a (current + step) step n (ground arith) in
      (
        suc k,
        (let r : current + suc k * step ≡ current + step + k * step = omega arith in rw r e),
        omega arith,
      )
]

covers_window :
    (p : ℕ) (w : Window) (ws : List Window) → inside p w ≡ true → covers p (w ∷ ws) ≡ true
covers_window p w ws h = rw h

inside_of_bounds : (p s e : ℕ) → s ≤ p → p < e → inside p (s, e) ≡ true
inside_of_bounds p s e h k = ground arith

room : (k span d : ℕ) → 0 < d → k < span / d → k * d + d ≤ span
room k span d pos h = grind arith

window-Fits :
    (to_utc : ℕ → ℕ) (date minutes' start : ℕ) (w : Window) (ws : List Window)
    → 0 < minutes'
    → elem start
        (map to_utc (spaced (combine date w.0) (minutes minutes') ((w.1 - w.0) / minutes minutes')))
      ≡ true
    → Fits to_utc date (minutes minutes') start (w ∷ ws)
window-Fits to_utc date minutes' start (s, e) ws positive h =
    let (k, on_clock, lt) =
      elem-spaced to_utc start (combine date s) (minutes minutes') ((e - s) / minutes minutes') h in
    let fits : k * minutes minutes' + minutes minutes' ≤ e - s =
      room k (e - s) (minutes minutes') (omega arith) lt in
    record {
      local = s + k * minutes minutes';
      on_clock =
          (let r : combine date (s + k * minutes minutes') ≡ combine date s + k * minutes minutes' =
              omega arith in
            rw r on_clock);
      open_throughout = λ p from until.
          covers_window p (s, e) ws (inside_of_bounds p s e (omega arith) (omega arith));
    }

Fits-later :
    {to_utc : ℕ → ℕ} {date duration start : ℕ} (w : Window) (ws : List Window)
    → Fits to_utc date duration start ws
    → Fits to_utc date duration start (w ∷ ws)
Fits-later w ws f = record {
  local = f.local;
  on_clock = f.on_clock;
  open_throughout = λ p from until. ground (arith, f.open_throughout p from until);
}

append_both-some :
    (a b : Option (List ℕ)) {c : List ℕ}
    → append_both a b ≡ some c
    → (x : List ℕ) × (y : List ℕ) × (a ≡ some x) × (b ≡ some y) × (c ≡ x ++ y)
append_both-some none b h = cc
append_both-some (some x) none h = cc
append_both-some (some x) (some y) {c} h = (x, y, refl, refl, cc)

elem-append :
    (a : ℕ) (xs ys : List ℕ) → elem a (xs ++ ys) ≡ true → (elem a xs ≡ true) ⊎ (elem a ys ≡ true)
elem-append a xs ys h = ground (arith, any_of-append (λ (x : ℕ). x == a) xs ys)

some_eq : (xs ys : List ℕ) → some xs ≡ some ys → xs ≡ ys
some_eq xs ys e = cc

none_elem : (a : ℕ) (xs : List ℕ) → xs ≡ [] → elem a xs ≡ true → ⊥
none_elem a [] e h = cc
none_elem a (x ∷ xs) e h = cc

-- Every candidate start stands on the wall clock at an instant from which on, for the whole length
-- of the appointment, the windows are open.
pub candidate_starts-Fits :
    (to_utc : ℕ → ℕ) (date duration_minutes start : ℕ) (ws : List Window) (candidates : List ℕ)
    → 0 < duration_minutes
    → candidate_starts to_utc date duration_minutes ws ≡ some candidates
    → elem start candidates ≡ true
    → Fits to_utc date (minutes duration_minutes) start ws
unfolding candidate_starts
candidate_starts-Fits to_utc date duration_minutes start [] candidates positive e h =
    absurd (none_elem start candidates (ground arith) h)
candidate_starts-Fits to_utc date duration_minutes start ((s, t) ∷ ws) candidates positive e h =
    let (here, later, first, others, joined) =
      append_both-some (slots_in_window to_utc date s t duration_minutes)
        (candidate_starts to_utc date duration_minutes ws) e in
    let spread = slots_in_window-spaced to_utc date s t duration_minutes positive in
    elim (elem-append start here later (rw (← joined) h)) [
      | inl in_window ↦
          window-Fits to_utc date duration_minutes start (s, t) ws positive
            (rw (some_eq _ here (sym spread ∙ first)) in_window)
      | inr in_others ↦
          Fits-later (s, t) ws
            (candidate_starts-Fits to_utc date duration_minutes start ws later positive others
              in_others)
    ]

-- The search of a day always ends for a service of positive length.
pub candidate_starts_total :
    (to_utc : ℕ → ℕ) (date duration_minutes : ℕ) (ws : List Window)
    → 0 < duration_minutes
    → (candidates : List ℕ) × (candidate_starts to_utc date duration_minutes ws ≡ some candidates)
unfolding candidate_starts
candidate_starts_total to_utc date duration_minutes [] positive = ([], refl)
candidate_starts_total to_utc date duration_minutes ((s, t) ∷ ws) positive =
    let (later, e) = candidate_starts_total to_utc date duration_minutes ws positive in
    (
      map to_utc (
            spaced (combine date s) (minutes duration_minutes) ((t - s) / minutes duration_minutes))
          ++ later,
      rw (slots_in_window-spaced to_utc date s t duration_minutes positive, e),
    )
