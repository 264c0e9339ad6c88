-- ===== src/Region/Bands/Strips.antt =====
-- The normal form of a region, and the spans of its rectangles across one band (`band_spans` of
-- crates/alloyvnc-region/src/lib.rs).
use mathlib.Core.List.{append-nil}
use alloyvnc.Base.{
  ◌+◌, ◌≤◌, ◌<◌, ◌≡◌, refl, ◌≢◌, ◌∙◌, inl, inr, Bool, not, ◌&&◌, ◌||◌, Bool-cases, List, [], ◌∷◌,
  ◌++◌, arith, leb, if◌then◌else◌,
}
use alloyvnc.Base.Words.{I32}
use alloyvnc.Region.Rect.{Rect}
use alloyvnc.Region.Spans.{Span}
use alloyvnc.Region.Spans.Order.{covers, Apart}
use alloyvnc.Region.Spans.Union.{union_spans_lem}
use alloyvnc.Region.Spans.Intersect.{intersect_spans_lem}
use alloyvnc.Region.Spans.Subtract.{subtract_spans_lem}
use alloyvnc.Region.Bands.{
  Op, union_op, intersect_op, subtract_op, Band, insert_span, sort_spans, spans_across, band_spans,
  combine, flush_spans,
}

-- The bands from `y` down; a band that touches the one before it, of spans `above`, has other
-- spans.
abbrev pub Ordered : I32 → List Span → List Band → Type 0
Ordered y above [] = Unit
Ordered y above (b ∷ bs) =
    (y ≤ b.y1)
    × (y ≡ b.y1 → above ≢ b.spans)
    × (b.y1 < b.y2)
    × (b.spans ≢ [])
    × Apart 0 b.spans
    × Ordered b.y2 b.spans bs

unfoldable pub rects_of : List Band → List Rect
rects_of [] = []
rects_of (b ∷ bs) = flush_spans b.y1 b.y2 b.spans ++ rects_of bs

-- The banded normal form: sorted, nothing empty, nothing touching inside a band, and touching
-- bands merged where their spans are the same.
pub record IsNormal (rs : List Rect) : Type 0 where
  pub bands : List Band
  pub made : rs ≡ rects_of bands
  pub ordered : Ordered 0 [] bands

insert_span-Apart :
    (lo : I32) (s : Span) (l : List Span) → Apart lo (s ∷ l) → insert_span s l ≡ s ∷ l
unfolding insert_span
insert_span-Apart lo s [] a = refl
insert_span-Apart lo s (t ∷ l) a = ground arith

sort_spans-Apart : (lo : I32) (l : List Span) → Apart lo l → sort_spans l ≡ l
unfolding sort_spans
sort_spans-Apart lo [] a = refl
sort_spans-Apart lo (s ∷ l) a = rw (sort_spans-Apart (s.1 + 1) l a.2) (insert_span-Apart lo s l a)

spans_across-flush_spans :
    (b1 b2 y1 y2 : I32) (l : List Span) (rs : List Rect)
    → spans_across (flush_spans b1 b2 l ++ rs) y1 y2
      ≡ (if leb b1 y1 && leb y2 b2 then l ++ spans_across rs y1 y2 else spans_across rs y1 y2)
unfolding spans_across flush_spans
spans_across-flush_spans b1 b2 y1 y2 [] rs = ground arith
spans_across-flush_spans b1 b2 y1 y2 (s ∷ l) rs =
    ground (arith, spans_across-flush_spans b1 b2 y1 y2 l rs)

-- No band that starts below the strip reaches into it.
spans_across_late :
    (y y1 y2 : I32) (above : List Span) (bs : List Band)
    → y1 < y
    → Ordered y above bs
    → spans_across (rects_of bs) y1 y2 ≡ []
unfolding rects_of spans_across
spans_across_late y y1 y2 above [] h o = refl
spans_across_late y y1 y2 above (b ∷ bs) h o =
    spans_across-flush_spans b.y1 b.y2 y1 y2 b.spans (rects_of bs)
    ∙ ground (arith, spans_across_late b.y2 y1 y2 b.spans bs)

-- Across a strip the rectangles of one band show at most, and their spans are in order.
spans_across-Apart :
    (y y1 y2 : I32) (above : List Span) (bs : List Band)
    → y1 < y2
    → Ordered y above bs
    → Apart 0 (spans_across (rects_of bs) y1 y2)
unfolding rects_of spans_across
spans_across-Apart y y1 y2 above [] h o = tt
spans_across-Apart y y1 y2 above (b ∷ bs) h o = elim (Bool-cases (leb b.y1 y1 && leb y2 b.y2)) [
  | inl inside ↦
      let late : y1 < b.y2 = ground arith in
      rw
        (
          spans_across-flush_spans b.y1 b.y2 y1 y2 b.spans (rects_of bs),
          inside,
          spans_across_late b.y2 y1 y2 b.spans bs late o.5,
          append-nil,
        )
        o.4
  | inr outside ↦
      rw (spans_across-flush_spans b.y1 b.y2 y1 y2 b.spans (rects_of bs), outside)
        (spans_across-Apart b.y2 y1 y2 b.spans bs h o.5)
]

pub band_spans-IsNormal :
    (rs : List Rect) (y1 y2 : I32)
    → IsNormal rs
    → y1 < y2
    → (band_spans rs y1 y2 ≡ spans_across rs y1 y2) × Apart 0 (band_spans rs y1 y2)
unfolding band_spans
band_spans-IsNormal rs y1 y2 n h =
    let a = spans_across-Apart 0 y1 y2 [] n.bands h n.ordered in
    rw (n.made, sort_spans-Apart 0 (spans_across (rects_of n.bands) y1 y2) a) (refl, a)

-- What an operation does with one point of the two sides.
abbrev pub combine_bits : Op → Bool → Bool → Bool
combine_bits union_op p q = p || q
combine_bits intersect_op p q = p && q
combine_bits subtract_op p q = p && not q

pub combine_lem :
    (kind : Op) (sa sb : List Span)
    → Apart 0 sa
    → Apart 0 sb
    → ((x : I32) → covers x (combine kind sa sb) ≡ combine_bits kind (covers x sa) (covers x sb))
      × Apart 0 (combine kind sa sb)
unfolding combine
combine_lem union_op sa sb h k = union_spans_lem sa sb 0 h k
combine_lem intersect_op sa sb h k = intersect_spans_lem sa sb 0 0 h k
combine_lem subtract_op sa sb h k = subtract_spans_lem sa sb 0 0 h k
