-- ===== src/Region/Spans/Subtract.antt =====
-- `subtract_spans` is the difference, in normal form (crates/alloyvnc-region/src/lib.rs).
use alloyvnc.Base.{
  ◌+◌, ◌≤◌, ◌≡◌, refl, not, ◌&&◌, List, [], ◌∷◌, ◌++◌, any-append, arith, ltb, leb, max, Bool-cases,
  inl, inr, leb→le, leb→lt, ltb→lt, ltb→le,
}
use mathlib.Core.List.{append-nil, append_assoc}
use alloyvnc.Base.Words.{I32}
use alloyvnc.Region.Spans.{Span, push_span, skip_spans, carve, subtract_spans}
use alloyvnc.Region.Spans.Order.{
  push_span-Apart, covers-push_span, covers, covers_below, in_span, Apart, Apart-lower,
}

skip_spans-Apart : (cur lo : I32) (b : List Span) → Apart lo b → Apart lo (skip_spans cur b)
unfolding skip_spans
skip_spans-Apart cur lo [] h = tt
skip_spans-Apart cur lo (y ∷ b) h = elim (Bool-cases (leb y.1 cur)) [
  | inl le ↦
      rw (le, skip_spans)
        (Apart-lower (y.1 + 1) lo _ (omega arith) (skip_spans-Apart cur (y.1 + 1) b h.2))
  | inr gt ↦ rw (gt, skip_spans) h
]

-- What is skipped lies before the span that is carved next.
covers-skip_spans :
    (p cur : I32) (b : List Span) → cur ≤ p → covers p (skip_spans cur b) ≡ covers p b
unfolding skip_spans
covers-skip_spans p cur [] h = refl
covers-skip_spans p cur (y ∷ b) h = ground (arith, covers-skip_spans p cur b)

covers-carve :
    (p cur ax2 lo : I32) (b : List Span)
    → Apart lo b
    → covers p (carve cur ax2 b) ≡ (leb cur p && ltb p ax2) && not (covers p b)
unfolding carve
covers-carve p cur ax2 lo [] h = ground arith
covers-carve p cur ax2 lo (y ∷ b) h = elim (Bool-cases (ltb y.0 ax2)) [
  | inr after ↦ rw (after, carve) (ground (arith, covers_below p (y.1 + 1) b, ltb→le y.0 ax2 after))
  | inl before ↦ elim (Bool-cases (leb ax2 (max cur y.1))) [
    | inl done ↦
        rw (before, done, carve)
          (rw (covers-push_span p cur y.0 (push_span (max cur y.1) ax2))
            (ground (arith, covers_below p (y.1 + 1) b, leb→le ax2 (max cur y.1) done)))
    | inr more ↦
        rw (before, more, carve)
          (rw
            (
              covers-push_span p cur y.0 (carve (max cur y.1) ax2 b),
              covers-carve p (max cur y.1) ax2 (y.1 + 1) b h.2,
            )
            (ground (arith, covers_below p (y.1 + 1) b)))
  ]
]

push_span_none : (x1 x2 : I32) → x2 ≤ x1 → push_span x1 x2 ≡ []
push_span_none x1 x2 h = ground arith

-- What is carved lies between the two ends.
carve-Apart :
    (cur ax2 lo : I32) (b : List Span) (l : List Span)
    → cur ≤ ax2
    → Apart lo b
    → Apart (ax2 + 1) l
    → Apart cur (carve cur ax2 b ++ l)
unfolding carve
carve-Apart cur ax2 lo [] l le h k =
    push_span-Apart cur ax2 cur l (omega arith) k (Apart-lower (ax2 + 1) cur l (omega arith) k)
carve-Apart cur ax2 lo (y ∷ b) l le h k = elim (Bool-cases (ltb y.0 ax2)) [
  | inr after ↦
      rw (after, carve)
        (push_span-Apart cur ax2 cur l (omega arith) k
          (Apart-lower (ax2 + 1) cur l (omega arith) k))
  | inl before ↦
      let lt = ltb→lt y.0 ax2 before in
      elim (Bool-cases (leb ax2 (max cur y.1))) [
        | inl done ↦
            rw (before, done, push_span_none (max cur y.1) ax2 (leb→le _ _ done), append-nil, carve)
              (push_span-Apart cur y.0 cur l (omega arith)
                (Apart-lower (ax2 + 1) (y.0 + 1) l (omega arith) k)
                (Apart-lower (ax2 + 1) cur l (omega arith) k))
        | inr more ↦
            let next : I32 = max cur y.1 in
            let lt' = leb→lt ax2 next more in
            let rest : List Span = carve next ax2 b ++ l in
            let ih = carve-Apart next ax2 (y.1 + 1) b l (omega arith) h.2 k in
            rw (before, more, append_assoc, carve)
              (push_span-Apart cur y.0 cur rest (omega arith)
                (Apart-lower next (y.0 + 1) rest (omega arith) ih)
                (Apart-lower next cur rest (omega arith) ih))
      ]
]

subtract_spans-Apart :
    (a b : List Span) (lo lo' : I32) → Apart lo a → Apart lo' b → Apart lo (subtract_spans a b)
unfolding subtract_spans
subtract_spans-Apart [] b lo lo' h k = tt
subtract_spans-Apart (x ∷ a) b lo lo' h k =
    let b' = skip_spans x.0 b in
    let k' = skip_spans-Apart x.0 lo' b k in
    Apart-lower x.0 lo _ h.0 (
      carve-Apart x.0 x.1 lo' b' (subtract_spans a b') (omega arith) k'
        (subtract_spans-Apart a b' (x.1 + 1) lo' h.2 k'))

covers-subtract_spans :
    (p : I32) (a b : List Span) (lo lo' : I32)
    → Apart lo a
    → Apart lo' b
    → covers p (subtract_spans a b) ≡ covers p a && not (covers p b)
unfolding subtract_spans
covers-subtract_spans p [] b lo lo' h k = refl
covers-subtract_spans p (x ∷ a) b lo lo' h k =
    let b' = skip_spans x.0 b in
    let k' = skip_spans-Apart x.0 lo' b k in
    rw
      (
        any-append (in_span p) (carve x.0 x.1 b') (subtract_spans a b'),
        covers-carve p x.0 x.1 lo' b' k',
        covers-subtract_spans p a b' (x.1 + 1) lo' h.2 k',
      )
      (ground (arith, covers-skip_spans p x.0 b, covers_below p (x.1 + 1) a))

-- Of two lists of spans in normal form, the difference holds the points of the first that are not
-- points of the second, and is in normal form itself.
pub subtract_spans_lem :
    (a b : List Span) (lo lo' : I32)
    → Apart lo a
    → Apart lo' b
    → ((p : I32) → covers p (subtract_spans a b) ≡ covers p a && not (covers p b))
      × Apart lo (subtract_spans a b)
subtract_spans_lem a b lo lo' h k =
    (λ p. covers-subtract_spans p a b lo lo' h k, subtract_spans-Apart a b lo lo' h k)
