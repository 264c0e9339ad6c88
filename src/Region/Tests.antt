-- ===== src/Region/Tests.antt =====
-- The theorems about rectangles, spans and regions at concrete ones.
use alloyvnc.Base.{ℕ, not, ◌&&◌, ◌||◌, List, [], ◌∷◌, arith}
use alloyvnc.Base.Words.{i32}
use alloyvnc.Region.Rect
use alloyvnc.Region.Rect.{Rect, intersection, intersects, contains, union_bounds, is_empty}
use alloyvnc.Region.Spans.{Span}
use alloyvnc.Region.Spans.Order.{Apart}
use alloyvnc.Region.Bands.{
  Region, contains_point, holds, union, intersect, subtract, add, remove, from_rects,
}
use alloyvnc.Region.Bands.Strips.{IsNormal}
use alloyvnc.Region.Bands.Laws.{Gives, union-Gives, intersect-Gives, subtract-Gives}
use alloyvnc.Region.Bands.Rows.{Row, from_rows}
use alloyvnc.Region.Bands.Rows.Laws.{InOrder, row_holds, from_rows_lem}
use alloyvnc.Region.Bands.Edits.{add-remove, from_rects-Gives}

abbrev square : ℕ → ℕ → ℕ → ℕ → Rect
square x1 y1 x2 y2 = record { x1 = i32 x1; y1 = i32 y1; x2 = i32 x2; y2 = i32 y2 }

abbrev here_rect : Rect
here_rect = square 0 0 10 10

abbrev there_rect : Rect
there_rect = square 5 5 20 20

abbrev some_spans : List Span
some_spans = (i32 0, i32 10) ∷ (i32 20, i32 30) ∷ []

abbrev more_spans : List Span
more_spans = (i32 5, i32 20) ∷ []

some_spans-Apart : Apart 0 some_spans
some_spans-Apart = omega arith

more_spans-Apart : Apart 0 more_spans
more_spans-Apart = omega arith

abbrev ell : Region
ell = from_rects (square 0 0 10 20 ∷ square 0 10 20 20 ∷ [])

abbrev bar : Region
bar = from_rects (square 5 5 30 15 ∷ [])

ell-IsNormal : IsNormal ell.rects
ell-IsNormal = (from_rects-Gives (square 0 0 10 20 ∷ square 0 10 20 20 ∷ [])).normal

bar-IsNormal : IsNormal bar.rects
bar-IsNormal = (from_rects-Gives (square 5 5 30 15 ∷ [])).normal

union-Gives_example :
    Gives (λ x y. contains_point ell x y || contains_point bar x y) (union ell bar)
union-Gives_example = union-Gives ell bar ell-IsNormal bar-IsNormal

intersect-Gives_example :
    Gives (λ x y. contains_point ell x y && contains_point bar x y) (intersect ell bar)
intersect-Gives_example = intersect-Gives ell bar ell-IsNormal bar-IsNormal

subtract-Gives_example :
    Gives (λ x y. contains_point ell x y && not (contains_point bar x y)) (subtract ell bar)
subtract-Gives_example = subtract-Gives ell bar ell-IsNormal bar-IsNormal

add-remove_example :
    Gives (λ x y. contains_point ell x y || Rect.contains_point there_rect x y) (add ell there_rect)
    × Gives
        (λ x y. contains_point ell x y && not (Rect.contains_point there_rect x y))
        (remove ell there_rect)
add-remove_example = add-remove ell there_rect ell-IsNormal

from_rects-Gives_example :
    Gives
      (λ x y. holds x y (here_rect ∷ there_rect ∷ []))
      (from_rects (here_rect ∷ there_rect ∷ []))
from_rects-Gives_example = from_rects-Gives (here_rect ∷ there_rect ∷ [])

-- Two rows that make one band, a gap, and a row with two spans.
abbrev some_rows : List Row
some_rows =
    (i32 0, (i32 0, i32 4) ∷ [])
    ∷ (i32 1, (i32 0, i32 4) ∷ [])
    ∷ (i32 2, [])
    ∷ (i32 3, (i32 0, i32 4) ∷ (i32 6, i32 8) ∷ [])
    ∷ []

some_rows-InOrder : InOrder 0 some_rows
some_rows-InOrder = omega arith

from_rows_lem_example : Gives (λ x y. row_holds x y some_rows) (from_rows some_rows)
from_rows_lem_example = from_rows_lem some_rows some_rows-InOrder
