-- ===== src/Region/Bands/Rows.antt =====
-- `Region::from_rows` of crates/alloyvnc-region/src/lib.rs: a region straight from rows of spans.
pub mod Laws
use alloyvnc.Base.{
  ℕ, Bool, true, false, ◌&&◌, Option, none, some, List, [], ◌∷◌, ◌++◌, map, length, ◌==◌,
  if◌then◌else◌,
}
use alloyvnc.Base.Words.{I32, i32, add_i32}
use alloyvnc.Region.Rect.{Rect}
use alloyvnc.Region.Spans.{Span}
use alloyvnc.Region.Bands.{Region}

abbrev pub Row : Type 0
Row = I32 × List Span

-- The `zip` and `all` of `same_spans`.
pub all_same : List Rect → List Span → Bool
all_same [] spans = true
all_same (r ∷ rs) [] = true
all_same (r ∷ rs) (s ∷ l) = (r.x1 == s.0 && r.x2 == s.1) && all_same rs l

pub same_spans : List Rect → List Span → Bool
unfolding all_same
same_spans rects spans = length rects == length spans && all_same rects spans

-- The rectangles that one row pushes.
pub push_row : I32 → List Span → List Rect
push_row y [] = []
push_row y ((x1, x2) ∷ l) =
    record { x1 = x1; y1 = y; x2 = x2; y2 = add_i32 y (i32 1) } ∷ push_row y l

abbrev pub stretch_down : I32 → List Rect → List Rect
stretch_down y rects = map {A = Rect} (λ r. record r { y2 = add_i32 y (i32 1) }) rects

-- The guard of the first arm of `match band`.
pub carries_on : Option I32 → I32 → List Rect → List Span → Bool
unfolding same_spans
carries_on none y open' spans = false
carries_on (some next) y open' spans = next == y && same_spans open' spans

-- The loop, with `out[start..]`, the band that is being built, and the row after it.
pub rows_loop : List Rect → Option I32 → List Row → List Rect
unfolding carries_on push_row
rows_loop open' next [] = open'
rows_loop open' next ((y, []) ∷ rows) = rows_loop open' next rows
rows_loop open' next ((y, s ∷ l) ∷ rows) = elim (carries_on next y open' (s ∷ l)) [
  | true ↦ rows_loop (stretch_down y open') (some (add_i32 y (i32 1))) rows
  | false ↦ open' ++ rows_loop (push_row y (s ∷ l)) (some (add_i32 y (i32 1))) rows
]

unfoldable pub from_rows : List Row → Region
unfolding rows_loop
from_rows rows = record { rects = rows_loop [] none rows }
