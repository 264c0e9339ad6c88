-- ===== src/Region/Bands/Cover.antt =====
-- The points of what the walk over the bands puts out (`op` of crates/alloyvnc-region/src/lib.rs).
use alloyvnc.Base.{
  ◌≤◌, ◌<◌, ◌≡◌, refl, ◌∙◌, sym, ap, inl, inr, Bool, true, false, ◌&&◌, ◌||◌, Bool-cases, Option,
  none, some, List, [], ◌∷◌, any-append, arith, ltb, leb, ltb→lt, ltb→le, ◌==◌,
}
use alloyvnc.Base.Words.{I32}
use alloyvnc.Region.Rect
use alloyvnc.Region.Rect.{Rect}
use alloyvnc.Region.Spans.{Span}
use alloyvnc.Region.Spans.Order.{covers}
use alloyvnc.Region.Bands.{
  Op, Band, holds, spans_across, band_spans, combine, flush_spans, flush, eq_spans, band_step,
  band_loop, band_walk, edges_of,
}
use alloyvnc.Region.Bands.Edges.{
  Above, IsStrict, Walked, Walked-step, Passed-sides, mem-first, EdgesIn, EdgesIn-Walked,
  edges_of-EdgesIn, edges_of-IsStrict,
}
use alloyvnc.Region.Bands.Strips.{IsNormal, band_spans-IsNormal, combine_bits, combine_lem}

pub eq_spans→≡ : (l m : List Span) → eq_spans l m ≡ true → l ≡ m
unfolding eq_spans
eq_spans→≡ [] [] h = refl
eq_spans→≡ [] (t ∷ m) h = cc
eq_spans→≡ (s ∷ l) [] h = cc
eq_spans→≡ (s ∷ l) (t ∷ m) h = ground (arith, eq_spans→≡ l m)

abbrev pub in_rows : I32 → I32 → I32 → Bool
in_rows y1 y2 y = leb y1 y && ltb y y2

module _ (x y : I32) where
  -- Across a band, whose rows no edge divides, the spans are those of the rectangles at the row.
  covers-spans_across :
      (y1 y2 : I32) (es : List I32) (rs : List Rect)
      → Above y1 (y2 ∷ es)
      → Walked y1 (y2 ∷ es) rs
      → y1 ≤ y
      → y < y2
      → covers x (spans_across rs y1 y2) ≡ holds x y rs
  unfolding spans_across Rect.contains_point
  covers-spans_across y1 y2 es [] a w h k = refl
  covers-spans_across y1 y2 es (r ∷ rs) a w h k = ground (
    arith,
    Passed-sides y1 y2 r.y1 es a w.0.0,
    Passed-sides y1 y2 r.y2 es a w.0.1,
    covers-spans_across y1 y2 es rs a w.1 h k,
  )

  -- Below the last edge there is no rectangle.
  holds_after : (e : I32) (rs : List Rect) → Walked e [] rs → e ≤ y → holds x y rs ≡ false
  unfolding Rect.contains_point
  holds_after e [] w h = refl
  holds_after e (r ∷ rs) w h = ground (arith, holds_after e rs w.1 h)

  -- Above the first edge neither.
  holds_before :
      (e : I32) (es : List I32) (rs : List Rect)
      → Above e es
      → EdgesIn (e ∷ es) rs
      → y < e
      → holds x y rs ≡ false
  unfolding Rect.contains_point
  holds_before e es [] a w h = refl
  holds_before e es (r ∷ rs) a w h =
      ground (arith, mem-first r.y1 e es a w.0.0, holds_before e es rs a w.1 h)

  pub holds-flush_spans :
      (y1 y2 : I32) (l : List Span)
      → holds x y (flush_spans y1 y2 l) ≡ in_rows y1 y2 y && covers x l
  unfolding flush_spans Rect.contains_point
  holds-flush_spans y1 y2 [] = ground arith
  holds-flush_spans y1 y2 (s ∷ l) = ground (arith, holds-flush_spans y1 y2 l)

  in_open : Option Band → Bool
  in_open none = false
  in_open (some o) = in_rows o.y1 o.y2 y && covers x o.spans

  holds-flush : (o : Option Band) → holds x y (flush o) ≡ in_open o
  unfolding flush in_open
  holds-flush none = refl
  holds-flush (some o) = holds-flush_spans o.y1 o.y2 o.spans

  -- The open band ends above the next one.
  abbrev EndsBy : I32 → Option Band → Type 0
  EndsBy prev none = Unit
  EndsBy prev (some o) = (o.y1 < o.y2) × (o.y2 ≤ prev)

  holds-band_step :
      (o : Option Band) (y1 y2 : I32) (spans : List Span)
      → EndsBy y1 o
      → y1 < y2
      → (holds x y (band_step o y1 y2 spans).0 || in_open (band_step o y1 y2 spans).1
          ≡ in_open o || (in_rows y1 y2 y && covers x spans))
        × EndsBy y2 (band_step o y1 y2 spans).1
  unfolding band_step in_open
  holds-band_step o y1 y2 [] e h = (rw (holds-flush o) (ground arith), tt)
  holds-band_step none y1 y2 (s ∷ l) e h = (ground arith, omega arith)
  holds-band_step (some o) y1 y2 (s ∷ l) e h =
      elim (Bool-cases (o.y2 == y1 && eq_spans o.spans (s ∷ l))) [
        | inl same ↦
            let eq : o.spans ≡ s ∷ l = eq_spans→≡ o.spans (s ∷ l) (ground arith) in
            rw same (ground (arith, ap (covers x) eq), ground arith)
        | inr other ↦ rw other (rw (holds-flush_spans o.y1 o.y2 o.spans) refl, omega arith)
      ]

  -- The union of the bands from an edge on.
  in_bands : Op → List Rect → List Rect → I32 → List I32 → Bool
  in_bands kind a b y1 [] = false
  in_bands kind a b y1 (y2 ∷ es) =
      (in_rows y1 y2 y && covers x (combine kind (band_spans a y1 y2) (band_spans b y1 y2)))
      || in_bands kind a b y2 es

  holds-band_loop :
      (kind : Op) (a b : List Rect) (o : Option Band) (y1 : I32) (es : List I32)
      → EndsBy y1 o
      → Above y1 es
      → holds x y (band_loop kind a b o y1 es) ≡ in_open o || in_bands kind a b y1 es
  unfolding band_loop in_bands
  holds-band_loop kind a b o y1 [] e h = rw (holds-flush o) (ground arith)
  holds-band_loop kind a b o y1 (y2 ∷ es) e h =
      let spans : List Span = combine kind (band_spans a y1 y2) (band_spans b y1 y2) in
      let step : List Rect × Option Band = band_step o y1 y2 spans in
      let (now, e') = holds-band_step o y1 y2 spans e h.0 in
      rw
        (
          any-append (λ r. Rect.contains_point r x y) step.0 (band_loop kind a b step.1 y2 es),
          holds-band_loop kind a b step.1 y2 es e' h.1,
        )
        (ground (arith, now))

  combine_bits_none : (kind : Op) → combine_bits kind false false ≡ false
  combine_bits_none Op.union_op = refl
  combine_bits_none Op.intersect_op = refl
  combine_bits_none Op.subtract_op = refl

  in_bands_before :
      (kind : Op) (a b : List Rect) (y1 : I32) (es : List I32)
      → Above y1 es
      → y < y1
      → in_bands kind a b y1 es ≡ false
  unfolding in_bands
  in_bands_before kind a b y1 [] h k = refl
  in_bands_before kind a b y1 (y2 ∷ es) h k = ground (arith, in_bands_before kind a b y2 es h.1)

  -- Each row lies in one band, and there the spans of the two sides are combined.
  in_bands_lem :
      (kind : Op) (a b : List Rect) (y1 : I32) (es : List I32)
      → IsNormal a
      → IsNormal b
      → Walked y1 es a
      → Walked y1 es b
      → Above y1 es
      → y1 ≤ y
      → in_bands kind a b y1 es ≡ combine_bits kind (holds x y a) (holds x y b)
  unfolding in_bands
  in_bands_lem kind a b y1 [] na nb wa wb h k =
      rw (holds_after y1 a wa k, holds_after y1 b wb k) (sym (combine_bits_none kind))
  in_bands_lem kind a b y1 (y2 ∷ es) na nb wa wb h k = elim (Bool-cases (ltb y y2)) [
    | inl above ↦
        let lt = ltb→lt y y2 above in
        let (ea, pa) = band_spans-IsNormal a y1 y2 na h.0 in
        let (eb, pb) = band_spans-IsNormal b y1 y2 nb h.0 in
        let both = (combine_lem kind (band_spans a y1 y2) (band_spans b y1 y2) pa pb).0 x in
        let ca : covers x (band_spans a y1 y2) ≡ holds x y a =
          ap (covers x) ea ∙ covers-spans_across y1 y2 es a h wa k lt in
        let cb : covers x (band_spans b y1 y2) ≡ holds x y b =
          ap (covers x) eb ∙ covers-spans_across y1 y2 es b h wb k lt in
        rw (both, ca, cb, in_bands_before kind a b y2 es h.1 lt) (ground arith)
    | inr below ↦
        let le = ltb→le y y2 below in
        rw
          (in_bands_lem kind a b y2 es na nb (Walked-step y1 y2 es a h.0 wa)
            (Walked-step y1 y2 es b h.0 wb) h.1 le)
          (ground arith)
  ]

  holds-band_walk :
      (kind : Op) (a b : List Rect) (es : List I32)
      → IsNormal a
      → IsNormal b
      → EdgesIn es a
      → EdgesIn es b
      → IsStrict es
      → holds x y (band_walk kind a b es) ≡ combine_bits kind (holds x y a) (holds x y b)
  unfolding band_walk in_open
  holds-band_walk kind [] [] [] na nb ia ib h = sym (combine_bits_none kind)
  holds-band_walk kind (r ∷ a) b [] na nb ia ib h = absurd ia.0.0
  holds-band_walk kind [] (r ∷ b) [] na nb ia ib h = absurd ib.0.0
  holds-band_walk kind a b (e ∷ es) na nb ia ib h =
      holds-band_loop kind a b none e es tt h ∙ elim (Bool-cases (ltb y e)) [
        | inl before ↦
            let lt = ltb→lt y e before in
            rw
              (
                in_bands_before kind a b e es h lt,
                holds_before e es a h ia lt,
                holds_before e es b h ib lt,
              )
              (sym (combine_bits_none kind))
        | inr after ↦
            in_bands_lem kind a b e es na nb (EdgesIn-Walked e es a ia) (EdgesIn-Walked e es b ib) h
              (ltb→le y e after)
      ]

-- The walk over the bands puts out the points that the operation says.
pub band_walk_lem :
    (kind : Op) (a b : List Rect) (x y : I32)
    → IsNormal a
    → IsNormal b
    → holds x y (band_walk kind a b (edges_of a b)) ≡ combine_bits kind (holds x y a) (holds x y b)
band_walk_lem kind a b x y na nb =
    let (ia, ib) = edges_of-EdgesIn a b in
    holds-band_walk x y kind a b (edges_of a b) na nb ia ib (edges_of-IsStrict a b)
