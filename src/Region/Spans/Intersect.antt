-- ===== src/Region/Spans/Intersect.antt =====
-- `intersect_spans` is the intersection, in normal form (crates/alloyvnc-region/src/lib.rs).
use alloyvnc.Base.{
  ◌+◌, ◌≡◌, refl, ◌&&◌, List, [], ◌∷◌, arith, ltb, min, max, Bool-cases, inl, inr, ltb→lt, ltb→le,
}
use alloyvnc.Base.Words.{I32}
use alloyvnc.Region.Spans.{Span, intersect_spans}
use alloyvnc.Region.Spans.Order.{
  push_span-Apart, covers-push_span, covers, covers_below, Apart, Apart-lower,
}

intersect_spans-Apart :
    (a b : List Span) (lo lo' : I32)
    → Apart lo a
    → Apart lo' b
    → Apart (max lo lo') (intersect_spans a b)
unfolding intersect_spans
intersect_spans-Apart [] b lo lo' h k = tt
intersect_spans-Apart (x ∷ a) [] lo lo' h k = tt
intersect_spans-Apart (x ∷ a) (y ∷ b) lo lo' h k = elim (Bool-cases (ltb x.1 y.1)) [
  | inl lt ↦
      let l = ltb→lt x.1 y.1 lt in
      let rest = intersect_spans-Apart a (y ∷ b) (x.1 + 1) lo' h.2 k in
      rw (lt, intersect_spans)
        (push_span-Apart (max x.0 y.0) (min x.1 y.1) (max lo lo') (intersect_spans a (y ∷ b))
          (omega arith)
          (Apart-lower (max (x.1 + 1) lo') (min x.1 y.1 + 1) (intersect_spans a (y ∷ b))
            (omega arith) rest)
          (Apart-lower (max (x.1 + 1) lo') (max lo lo') (intersect_spans a (y ∷ b)) (omega arith)
            rest))
  | inr ge ↦
      let l = ltb→le x.1 y.1 ge in
      let rest = intersect_spans-Apart (x ∷ a) b lo (y.1 + 1) h k.2 in
      rw (ge, intersect_spans)
        (push_span-Apart (max x.0 y.0) (min x.1 y.1) (max lo lo') (intersect_spans (x ∷ a) b)
          (omega arith)
          (Apart-lower (max lo (y.1 + 1)) (min x.1 y.1 + 1) (intersect_spans (x ∷ a) b)
            (omega arith) rest)
          (Apart-lower (max lo (y.1 + 1)) (max lo lo') (intersect_spans (x ∷ a) b) (omega arith)
            rest))
]

covers-intersect_spans :
    (p : I32) (a b : List Span) (lo lo' : I32)
    → Apart lo a
    → Apart lo' b
    → covers p (intersect_spans a b) ≡ covers p a && covers p b
unfolding intersect_spans
covers-intersect_spans p [] b lo lo' h k = refl
covers-intersect_spans p (x ∷ a) [] lo lo' h k = ground arith
covers-intersect_spans p (x ∷ a) (y ∷ b) lo lo' h k = elim (Bool-cases (ltb x.1 y.1)) [
  | inl lt ↦
      let l = ltb→lt x.1 y.1 lt in
      rw (lt, intersect_spans)
        (rw
          (
            covers-push_span p (max x.0 y.0) (min x.1 y.1) (intersect_spans a (y ∷ b)),
            covers-intersect_spans p a (y ∷ b) (x.1 + 1) lo' h.2 k,
          )
          (ground (arith, covers_below p (y.1 + 1) b)))
  | inr ge ↦
      let l = ltb→le x.1 y.1 ge in
      rw (ge, intersect_spans)
        (rw
          (
            covers-push_span p (max x.0 y.0) (min x.1 y.1) (intersect_spans (x ∷ a) b),
            covers-intersect_spans p (x ∷ a) b lo (y.1 + 1) h k.2,
          )
          (ground (arith, covers_below p (x.1 + 1) a)))
]

-- Of two lists of spans in normal form, the intersection holds the points of both, and is in
-- normal form itself.
pub intersect_spans_lem :
    (a b : List Span) (lo lo' : I32)
    → Apart lo a
    → Apart lo' b
    → ((p : I32) → covers p (intersect_spans a b) ≡ covers p a && covers p b)
      × Apart (max lo lo') (intersect_spans a b)
intersect_spans_lem a b lo lo' h k =
    (λ p. covers-intersect_spans p a b lo lo' h k, intersect_spans-Apart a b lo lo' h k)
