-- ===== src/Availability/Search/Free.antt =====
-- Which slots the search returns: the candidates ahead of the clock that no booking blocks, in order.
use appointment_voice_saas.Common.{
  ℕ, ◌+◌, ◌<◌, ◌≡◌, refl, List, [], ◌∷◌, map, Bool, not, ◌&&◌, ◌||◌, ◌==◌, ltb, any_of, arith,
}
use appointment_voice_saas.Tables.{Booking}
use appointment_voice_saas.Availability.Search.{insert_new, sorted_set, clashes, free_slots}

abbrev pub elem : ℕ → List ℕ → Bool
elem a = any_of (λ x. x == a)

-- The slot from `start` to `end` is in the list.
abbrev pub has_slot : ℕ → ℕ → List (ℕ × ℕ) → Bool
has_slot start end = any_of (λ (s : ℕ × ℕ). s.0 == start && s.1 == end)

elem-insert_new : (a b : ℕ) (xs : List ℕ) → elem a (insert_new b xs) ≡ (b == a || elem a xs)
unfolding insert_new
elem-insert_new a b [] = refl
elem-insert_new a b (x ∷ xs) = ground (arith, elem-insert_new a b xs)

pub elem-sorted_set : (a : ℕ) (xs : List ℕ) → elem a (sorted_set xs) ≡ elem a xs
unfolding sorted_set
elem-sorted_set a [] = refl
elem-sorted_set a (x ∷ xs) = rw (elem-insert_new, elem-sorted_set a xs)

-- Strictly ascending, from above `low` on.
abbrev pub Ascends : ℕ → List ℕ → Type 0
Ascends low [] = Unit {0}
Ascends low (x ∷ xs) = (low < x) × Ascends x xs

abbrev pub IsAscending : List ℕ → Type 0
IsAscending [] = Unit {0}
IsAscending (x ∷ xs) = Ascends x xs

insert_new-Ascends :
    (low a : ℕ) (xs : List ℕ) → low < a → Ascends low xs → Ascends low (insert_new a xs)
unfolding insert_new
insert_new-Ascends low a [] h g = (h, tt)
insert_new-Ascends low a (x ∷ xs) h g = ground (arith, insert_new-Ascends x a xs)

insert_new-IsAscending : (a : ℕ) (xs : List ℕ) → IsAscending xs → IsAscending (insert_new a xs)
unfolding insert_new
insert_new-IsAscending a [] g = tt
insert_new-IsAscending a (x ∷ xs) g = ground (arith, insert_new-Ascends x a xs)

sorted_set-IsAscending : (xs : List ℕ) → IsAscending (sorted_set xs)
unfolding sorted_set
sorted_set-IsAscending [] = tt
sorted_set-IsAscending (x ∷ xs) =
    insert_new-IsAscending x (sorted_set xs) (sorted_set-IsAscending xs)

abbrev pub starts : List (ℕ × ℕ) → List ℕ
starts = map (λ (s : ℕ × ℕ). s.0)

Ascends-mono : (low x : ℕ) (xs : List ℕ) → low < x → Ascends x xs → Ascends low xs
Ascends-mono low x [] h g = tt
Ascends-mono low x (y ∷ ys) h g = (omega arith, g.1)

free_slots-Ascends :
    (now duration : ℕ) (bs : List Booking) (low : ℕ) (xs : List ℕ)
    → Ascends low xs
    → Ascends low (starts (free_slots now duration bs xs))
unfolding free_slots
free_slots-Ascends now duration bs low [] g = tt
free_slots-Ascends now duration bs low (x ∷ xs) g = ground (
  arith,
  free_slots-Ascends now duration bs x xs,
  Ascends-mono low x (starts (free_slots now duration bs xs)),
)

IsAscending-Ascends : (low : ℕ) (xs : List ℕ) → Ascends low xs → IsAscending xs
IsAscending-Ascends low [] g = tt
IsAscending-Ascends low (x ∷ xs) g = g.1

free_slots-IsAscending :
    (now duration : ℕ) (bs : List Booking) (xs : List ℕ)
    → IsAscending xs
    → IsAscending (starts (free_slots now duration bs xs))
unfolding free_slots
free_slots-IsAscending now duration bs [] g = tt
free_slots-IsAscending now duration bs (x ∷ xs) g =
    let later = free_slots-Ascends now duration bs x xs g in
    ground (arith, later, IsAscending-Ascends x (starts (free_slots now duration bs xs)) later)

has_slot-free_slots :
    (now duration : ℕ) (bs : List Booking) (start end : ℕ) (xs : List ℕ)
    → has_slot start end (free_slots now duration bs xs) ≡ (
        elem start xs
        && ltb now start
        && end == start + duration
        && not (any_of (clashes start (start + duration)) bs))
unfolding free_slots
has_slot-free_slots now duration bs start end [] = refl
has_slot-free_slots now duration bs start end (x ∷ xs) =
    ground (arith, has_slot-free_slots now duration bs start end xs)

-- Of any candidates, the slots left start in strictly ascending order.
pub free_slots-sorted_set-IsAscending :
    (now duration : ℕ) (bs : List Booking) (candidates : List ℕ)
    → IsAscending (starts (free_slots now duration bs (sorted_set candidates)))
free_slots-sorted_set-IsAscending now duration bs candidates =
    free_slots-IsAscending now duration bs (sorted_set candidates)
      (sorted_set-IsAscending candidates)

-- A slot is left exactly if it is a candidate ahead of the clock, is as long as asked, and no
-- booking of the list overlaps it.
pub has_slot-free_slots-sorted_set :
    (now duration : ℕ) (bs : List Booking) (start end : ℕ) (candidates : List ℕ)
    → has_slot start end (free_slots now duration bs (sorted_set candidates)) ≡ (
        elem start candidates
        && ltb now start
        && end == start + duration
        && not (any_of (clashes start (start + duration)) bs))
has_slot-free_slots-sorted_set now duration bs start end candidates =
    rw (has_slot-free_slots, elem-sorted_set)
