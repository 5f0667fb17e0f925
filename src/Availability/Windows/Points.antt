-- ===== src/Availability/Windows/Points.antt =====
-- The windows as sets of instants: what intersection and subtraction mean.
use appointment_voice_saas.Common.{
  ℕ, ◌≡◌, refl, List, [], ◌∷◌, Bool, true, false, not, ◌&&◌, ◌||◌, min, max, arith, ltb, leb,
  any_of, any_of-append, if◌then◌else◌,
}
use appointment_voice_saas.Availability.Windows.{
  Window, overlaps_with, intersect_time_windows, remaining, subtract_block, subtract_time_windows,
}

abbrev pub inside : ℕ → Window → Bool
inside p w = leb w.0 p && ltb p w.1

-- The instant lies in one of the windows.
abbrev pub covers : ℕ → List Window → Bool
covers p = any_of (inside p)

and_or_distrib : (x y z : Bool) → ((x && y) || (x && z)) ≡ (x && (y || z))
and_or_distrib true y z = refl
and_or_distrib false y z = refl

or_and_distrib : (x y z : Bool) → ((x && z) || (y && z)) ≡ ((x || y) && z)
or_and_distrib true y true = refl
or_and_distrib true true false = refl
or_and_distrib true false false = refl
or_and_distrib false y z = refl

inside_overlap :
    (p a b c d : ℕ) → inside p (max a c, min b d) ≡ (inside p (a, b) && inside p (c, d))
inside_overlap p a b c d = ground arith

covers_nonempty :
    (p s e : ℕ) (later : List Window)
    → covers p (if ltb s e then (s, e) ∷ later else later) ≡ (inside p (s, e) || covers p later)
covers_nonempty p s e later = ground arith

covers-overlaps_with :
    (p : ℕ) (w : Window) (ys : List Window)
    → covers p (overlaps_with w ys) ≡ (inside p w && covers p ys)
unfolding overlaps_with
covers-overlaps_with p w [] = ground arith
covers-overlaps_with p (a, b) ((c, d) ∷ ys) =
    rw (covers_nonempty, inside_overlap, covers-overlaps_with p (a, b) ys)
      (and_or_distrib (inside p (a, b)) (inside p (c, d)) (covers p ys))

-- An instant is in an intersection exactly if both sides cover it.
pub covers-intersect_time_windows :
    (p : ℕ) (xs ys : List Window)
    → covers p (intersect_time_windows xs ys) ≡ (covers p xs && covers p ys)
unfolding intersect_time_windows
covers-intersect_time_windows p [] ys = refl
covers-intersect_time_windows p (x ∷ xs) ys =
    rw (any_of-append, covers-overlaps_with, covers-intersect_time_windows p xs ys)
      (or_and_distrib (inside p x) (covers p xs) (covers p ys))

covers-remaining :
    (p : ℕ) (b w : Window) → covers p (remaining b w) ≡ (inside p w && not (inside p b))
unfolding remaining
covers-remaining p b w = ground arith

covers-subtract_block :
    (p : ℕ) (b : Window) (ws : List Window)
    → covers p (subtract_block b ws) ≡ (covers p ws && not (inside p b))
unfolding subtract_block
covers-subtract_block p b [] = refl
covers-subtract_block p b (w ∷ ws) = ground (
  arith,
  any_of-append (inside p) (remaining b w) (subtract_block b ws),
  covers-remaining p b w,
  covers-subtract_block p b ws,
)

-- An instant is left by a subtraction exactly if a base window covers it and no block does,
-- whatever the blocks: they may be empty, reversed, or overlap one another.
pub covers-subtract_time_windows :
    (p : ℕ) (ws bs : List Window)
    → covers p (subtract_time_windows ws bs) ≡ (covers p ws && not (covers p bs))
unfolding subtract_time_windows
covers-subtract_time_windows p ws [] = ground arith
covers-subtract_time_windows p ws (b ∷ bs) =
    ground
      (arith, covers-subtract_time_windows p (subtract_block b ws) bs, covers-subtract_block p b ws)
