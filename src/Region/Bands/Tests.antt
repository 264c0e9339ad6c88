-- ===== src/Region/Bands/Tests.antt =====
-- The examples of the crate's own tests.
use alloyvnc.Base.{ℕ, ◌≡◌, refl, true, false, [], ◌∷◌}
use alloyvnc.Base.Words.{i32}
use alloyvnc.Region.Rect
use alloyvnc.Region.Rect.{Rect}
use alloyvnc.Region.Bands.Rows.{from_rows}
use alloyvnc.Region.Bands.{Region, from_rects, from_rect, remove, len, contains_point}

abbrev square : ℕ → ℕ → ℕ → ℕ → Rect
square x1 y1 x2 y2 = record { x1 = i32 x1; y1 = i32 y1; x2 = i32 x2; y2 = i32 y2 }

side_by_side :
    (from_rects (square 0 0 10 10 ∷ square 10 0 20 10 ∷ [])).rects ≡ square 0 0 20 10 ∷ []
unfolding from_rects
side_by_side = refl

l_shape :
    (from_rects (square 0 0 10 20 ∷ square 0 10 20 20 ∷ [])).rects
    ≡ square 0 0 10 10 ∷ square 0 10 20 20 ∷ []
unfolding from_rects
l_shape = refl

abbrev holed : Region
holed = remove (from_rect (square 0 0 30 30)) (square 10 10 20 20)

holed_lem :
    (len holed ≡ 4)
    × (contains_point holed (i32 15) (i32 15) ≡ false)
    × (contains_point holed (i32 5) (i32 15) ≡ true)
unfolding remove len contains_point Rect.contains_point
holed_lem = (refl, refl, refl)

rows_lem :
    (from_rows (
      (i32 0, (i32 0, i32 4) ∷ [])
      ∷ (i32 1, (i32 0, i32 4) ∷ [])
      ∷ (i32 3, (i32 6, i32 8) ∷ [])
      ∷ [])).rects
    ≡ square 0 0 4 2 ∷ square 6 3 8 4 ∷ []
unfolding from_rows
rows_lem = refl
