-- ===== src/Region/Bands/Rows/Laws.antt =====
-- What `from_rows` of crates/alloyvnc-region/src/lib.rs builds from rows in order.
use mathlib.Core.List.{append-nil}
use alloyvnc.Base.{
  ◌+◌, ◌≤◌, ◌<◌, ◌≡◌, refl, ap, ◌∙◌, sym, ◌≢◌, inl, inr, Bool, true, false, ◌&&◌, ◌||◌, suc,
  Bool-cases, Option, none, some, List, [], ◌∷◌, ◌++◌, any, any-append, length, arith, ◌==◌,
}
use alloyvnc.Base.Words.{I32, i32, add_i32, u32_mod}
use alloyvnc.Region.Rect.{Rect}
use alloyvnc.Region.Spans.{Span}
use alloyvnc.Region.Spans.Order.{covers, Apart}
use alloyvnc.Region.Bands.{Band, holds, flush_spans, contains_point}
use alloyvnc.Region.Bands.Strips.{IsNormal, rects_of, Ordered}
use alloyvnc.Region.Bands.Cover.{holds-flush_spans}
use alloyvnc.Region.Bands.Laws.{Gives, nil-IsNormal}
use alloyvnc.Region.Bands.Rows.{
  Row, all_same, same_spans, push_row, stretch_down, carries_on, rows_loop, from_rows,
}

-- What the caller promises: `y` increases, no row is the last of an `i32`, and the spans of each
-- row are sorted, not empty and separated.
abbrev pub InOrder : I32 → List Row → Type 0
InOrder lo [] = Unit
InOrder lo (row ∷ rows) =
    (lo ≤ row.0) × (row.0 + 1 < u32_mod) × Apart 0 row.1 × InOrder (row.0 + 1) rows

-- Some row holds the point.
abbrev pub row_holds : I32 → I32 → List Row → Bool
row_holds x y = any (λ row. row.0 == y && covers x row.1)

InOrder-lower : (lo lo' : I32) (rows : List Row) → lo' ≤ lo → InOrder lo rows → InOrder lo' rows
InOrder-lower lo lo' [] h o = tt
InOrder-lower lo lo' (row ∷ rows) h o = (omega arith, o.1, o.2, o.3)

next_row : (y : I32) → y + 1 < u32_mod → add_i32 y (i32 1) ≡ y + 1
next_row y h = omega arith

push_row-flush_spans :
    (y : I32) (l : List Span) → y + 1 < u32_mod → push_row y l ≡ flush_spans y (y + 1) l
unfolding push_row flush_spans
push_row-flush_spans y [] h = refl
push_row-flush_spans y (s ∷ l) h = rw (next_row y h, push_row-flush_spans y l h)

stretch_down-flush_spans :
    (b1 b2 y : I32) (l : List Span)
    → y + 1 < u32_mod
    → stretch_down y (flush_spans b1 b2 l) ≡ flush_spans b1 (y + 1) l
unfolding flush_spans
stretch_down-flush_spans b1 b2 y [] h = refl
stretch_down-flush_spans b1 b2 y (s ∷ l) h = rw (next_row y h, stretch_down-flush_spans b1 b2 y l h)

length-flush_spans : (b1 b2 : I32) (l : List Span) → length (flush_spans b1 b2 l) ≡ length l
unfolding flush_spans
length-flush_spans b1 b2 [] = refl
length-flush_spans b1 b2 (s ∷ l) = ap suc (length-flush_spans b1 b2 l)

all_same_lem :
    (b1 b2 : I32) (l m : List Span)
    → length l ≡ length m
    → all_same (flush_spans b1 b2 l) m ≡ true
    → l ≡ m
unfolding all_same flush_spans
all_same_lem b1 b2 [] [] e h = refl
all_same_lem b1 b2 [] (t ∷ m) e h = absurd (omega arith)
all_same_lem b1 b2 (s ∷ l) [] e h = absurd (omega arith)
all_same_lem b1 b2 (s ∷ l) (t ∷ m) e h =
    let rest : all_same (flush_spans b1 b2 l) m ≡ true = ground arith in
    let tails = all_same_lem b1 b2 l m (omega arith) rest in
    let left : s.0 ≡ t.0 = ground arith in let right : s.1 ≡ t.1 = ground arith in cc

all_same_refl : (b1 b2 : I32) (l : List Span) → all_same (flush_spans b1 b2 l) l ≡ true
unfolding all_same flush_spans
all_same_refl b1 b2 [] = refl
all_same_refl b1 b2 (s ∷ l) = ground (arith, all_same_refl b1 b2 l)

-- The comparison of a band's rectangles with spans is that of the spans.
same_spans_lem :
    (b1 b2 : I32) (l m : List Span)
    → (same_spans (flush_spans b1 b2 l) m ≡ true → l ≡ m)
      × (same_spans (flush_spans b1 b2 l) m ≡ false → l ≢ m)
unfolding same_spans
same_spans_lem b1 b2 l m = (
  λ h.
      let n = length-flush_spans b1 b2 l in
      let len : length l ≡ length m = ground arith in
      let all : all_same (flush_spans b1 b2 l) m ≡ true = ground arith in
      all_same_lem b1 b2 l m len all,
  λ h e.
      let n = length-flush_spans b1 b2 l in
      let r : all_same (flush_spans b1 b2 l) m ≡ true = rw (← e) (all_same_refl b1 b2 l) in
      let len : length l ≡ length m = ap length e in absurd (ground arith),
)

-- A band and rows below it as bands, from `y` on below a band of spans `above`.
record Built (y : I32) (above : List Span) (b : Band) (rows : List Row) (out : List Rect)
    : Type 0 where
  bands : List Band
  made : out ≡ rects_of bands
  ordered : Ordered y above bands
  points :
      (x z : I32) → holds x z out ≡ holds x z (flush_spans b.y1 b.y2 b.spans) || row_holds x z rows

stretched :
    (x w b1 b2 z : I32) (l m : List Span) (rest : Bool)
    → b1 < b2
    → b2 ≡ z
    → l ≡ m
    → holds x w (flush_spans b1 (z + 1) l) || rest
      ≡ holds x w (flush_spans b1 b2 l) || ((z == w && covers x m) || rest)
stretched x w b1 b2 z l m rest h at e =
    rw (← e, ← at, holds-flush_spans x w b1 (b2 + 1) l, holds-flush_spans x w b1 b2 l)
      (ground arith)

-- The band `b` may stand from `y` on below a band of spans `above`.
abbrev Fits : I32 → List Span → Band → Type 0
Fits y above b =
    (y ≤ b.y1) × (y ≡ b.y1 → above ≢ b.spans) × (b.y1 < b.y2) × (b.spans ≢ []) × Apart 0 b.spans

row_points :
    (x w z : I32) (m : List Span) (before after rest : Bool)
    → after ≡ holds x w (flush_spans z (z + 1) m) || rest
    → before || after ≡ before || ((z == w && covers x m) || rest)
row_points x w z m before after rest h = rw (h, holds-flush_spans x w z (z + 1) m) (ground arith)

rows_loop_nil : (rects : List Rect) (next : Option I32) → rows_loop rects next [] ≡ rects
unfolding rows_loop
rows_loop_nil rects next = refl

rows_loop_skip :
    (rects : List Rect) (next : Option I32) (z : I32) (rows : List Row)
    → rows_loop rects next ((z, []) ∷ rows) ≡ rows_loop rects next rows
unfolding rows_loop
rows_loop_skip rects next z rows = refl

rows_loop_row :
    (rects : List Rect) (next : Option I32) (z : I32) (s : Span) (l : List Span) (rows : List Row)
    → (carries_on next z rects (s ∷ l) ≡ true
        → rows_loop rects next ((z, s ∷ l) ∷ rows)
          ≡ rows_loop (stretch_down z rects) (some (add_i32 z (i32 1))) rows)
      × (carries_on next z rects (s ∷ l) ≡ false
          → rows_loop rects next ((z, s ∷ l) ∷ rows)
            ≡ rects ++ rows_loop (push_row z (s ∷ l)) (some (add_i32 z (i32 1))) rows)
unfolding rows_loop
rows_loop_row rects next z s l rows = (λ e. rw (e, rows_loop), λ e. rw (e, rows_loop))

rows_loop-Built :
    (rows : List Row) (y : I32) (above : List Span) (b : Band)
    → InOrder b.y2 rows
    → Fits y above b
    → Built y above b rows (rows_loop (flush_spans b.y1 b.y2 b.spans) (some b.y2) rows)
unfolding carries_on rects_of
rows_loop-Built [] y above b o f =
    rw (rows_loop_nil (flush_spans b.y1 b.y2 b.spans) (some b.y2)) (record {
      bands = b ∷ [];
      made = sym (append-nil _);
      ordered = (f.0, f.1, f.2, f.3, f.4, tt);
      points = λ x w. ground arith;
    })
rows_loop-Built ((z, []) ∷ rows) y above b o f =
    let r = rows_loop-Built rows y above b (InOrder-lower (z + 1) b.y2 rows (omega arith) o.3) f in
    rw (rows_loop_skip (flush_spans b.y1 b.y2 b.spans) (some b.y2) z rows) (record {
      bands = r.bands;
      made = r.made;
      ordered = r.ordered;
      points = λ x w. rw (r.points x w) (ground arith);
    })
rows_loop-Built ((z, s ∷ l) ∷ rows) y above b o f =
    let row = rows_loop_row (flush_spans b.y1 b.y2 b.spans) (some b.y2) z s l rows in
    elim (Bool-cases (b.y2 == z && same_spans (flush_spans b.y1 b.y2 b.spans) (s ∷ l))) [
      | inl same ↦
          let at : b.y2 ≡ z = ground arith in
          let alike : same_spans (flush_spans b.y1 b.y2 b.spans) (s ∷ l) ≡ true = ground arith in
          let spans = (same_spans_lem b.y1 b.y2 b.spans (s ∷ l)).0 alike in
          let r =
            rows_loop-Built rows y above (record b { y2 = z + 1 }) o.3
              (f.0, f.1, omega arith, f.3, f.4) in
          rw (row.0 same, stretch_down-flush_spans b.y1 b.y2 z b.spans o.1, next_row z o.1)
            (record {
              bands = r.bands;
              made = r.made;
              ordered = r.ordered;
              points = λ x w.
                  r.points x w
                  ∙ stretched x w b.y1 b.y2 z b.spans (s ∷ l) (row_holds x w rows) f.2 at spans;
            })
      | inr other ↦
          let below : Band = record { y1 = z; y2 = z + 1; spans = s ∷ l } in
          let differ : b.y2 ≡ z → b.spans ≢ s ∷ l =
            λ at. (same_spans_lem b.y1 b.y2 b.spans (s ∷ l)).1 (ground arith) in
          let r =
            rows_loop-Built rows b.y2 b.spans below o.3 (o.0, differ, omega arith, λ e. cc, o.2) in
          rw (row.1 other, next_row z o.1, push_row-flush_spans z (s ∷ l) o.1)
            (record {
              bands = b ∷ r.bands;
              made = ap (λ q. flush_spans b.y1 b.y2 b.spans ++ q) r.made;
              ordered = (f.0, f.1, f.2, f.3, f.4, r.ordered);
              points = λ x w.
                  any-append _ (flush_spans b.y1 b.y2 b.spans) _
                  ∙ row_points x w z (s ∷ l) _ _ (row_holds x w rows) (r.points x w);
            })
    ]

from_rows_from :
    (rows : List Row) (lo : I32)
    → InOrder lo rows
    → IsNormal (rows_loop [] none rows)
      × ((x w : I32) → holds x w (rows_loop [] none rows) ≡ row_holds x w rows)
unfolding carries_on
from_rows_from [] lo o = rw (rows_loop_nil [] none) (nil-IsNormal, λ x w. refl)
from_rows_from ((z, []) ∷ rows) lo o =
    let rest = from_rows_from rows (z + 1) o.3 in
    rw (rows_loop_skip [] none z rows) (rest.0, λ x w. rw (rest.1 x w) (ground arith))
from_rows_from ((z, s ∷ l) ∷ rows) lo o =
    let below : Band = record { y1 = z; y2 = z + 1; spans = s ∷ l } in
    let r =
      rows_loop-Built rows 0 [] below o.3 (omega arith, λ e k. cc, omega arith, λ e. cc, o.2) in
    rw
      (
        (rows_loop_row [] none z s l rows).1 refl,
        next_row z o.1,
        push_row-flush_spans z (s ∷ l) o.1,
      )
      (
        record { bands = r.bands; made = r.made; ordered = r.ordered },
        λ x w. row_points x w z (s ∷ l) false _ (row_holds x w rows) (r.points x w),
      )

-- Rows in order, with sorted and separated spans, become a region in normal form with exactly the
-- points of the rows.
pub from_rows_lem :
    (rows : List Row) → InOrder 0 rows → Gives (λ x y. row_holds x y rows) (from_rows rows)
unfolding from_rows contains_point
from_rows_lem rows o =
    let built = from_rows_from rows 0 o in record { normal = built.0; points = built.1 }
