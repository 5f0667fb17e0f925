-- ===== src/Availability/Windows.antt =====
-- app/services/availability_service.py: `_intersect_time_windows` and `_subtract_time_windows`.
-- A `time` is its number of microseconds since midnight.
pub mod Points
use appointment_voice_saas.Common.{
  ℕ, List, [], ◌∷◌, ◌++◌, Bool, ◌||◌, min, max, ltb, leb, if◌then◌else◌,
}

abbrev pub Window : Type 0
Window = ℕ × ℕ

-- The inner loop: one staff window against every salon window.
pub overlaps_with : Window → List Window → List Window
overlaps_with (staff_start, staff_end) [] = []
overlaps_with (staff_start, staff_end) ((salon_start, salon_end) ∷ rest) =
    let start = max staff_start salon_start in
    let end = min staff_end salon_end in
    let later = overlaps_with (staff_start, staff_end) rest in
    if ltb start end then (start, end) ∷ later else later

unfoldable pub intersect_time_windows : List Window → List Window → List Window
unfolding overlaps_with
intersect_time_windows [] salon_windows = []
intersect_time_windows (staff_window ∷ rest) salon_windows =
    overlaps_with staff_window salon_windows ++ intersect_time_windows rest salon_windows

-- What is left of one window beside one block: nothing, one piece or two.
pub remaining : Window → Window → List Window
remaining (block_start, block_end) (win_start, win_end) =
    if leb block_end win_start || leb win_end block_start
    then (win_start, win_end) ∷ []
    else (if ltb win_start block_start then (win_start, block_start) ∷ [] else [])
      ++ (if ltb block_end win_end then (block_end, win_end) ∷ [] else [])

-- The loop over the windows that remain, for one block.
pub subtract_block : Window → List Window → List Window
unfolding remaining
subtract_block block [] = []
subtract_block block (window ∷ rest) = remaining block window ++ subtract_block block rest

unfoldable pub subtract_time_windows : List Window → List Window → List Window
unfolding subtract_block
subtract_time_windows result [] = result
subtract_time_windows result (block ∷ blocks) =
    subtract_time_windows (subtract_block block result) blocks
