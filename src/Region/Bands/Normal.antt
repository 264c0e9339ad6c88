-- ===== src/Region/Bands/Normal.antt =====
-- What the walk over the bands puts out is in normal form (`op` of
-- crates/alloyvnc-region/src/lib.rs).
use mathlib.Core.List.{append_assoc, append-nil}
use alloyvnc.Base.{
  ◌≤◌, ◌<◌, ◌≡◌, refl, ◌≢◌, sym, ap, inl, inr, true, false, ◌&&◌, Bool-cases, Option, none, some,
  List, [], ◌∷◌, ◌++◌, arith, ◌==◌,
}
use alloyvnc.Base.Words.{I32}
use alloyvnc.Region.Rect.{Rect}
use alloyvnc.Region.Spans.{Span}
use alloyvnc.Region.Spans.Order.{Apart}
use alloyvnc.Region.Bands.{
  Op, Band, band_spans, combine, flush, eq_spans, band_step, band_loop, band_walk, edges_of,
}
use alloyvnc.Region.Bands.Edges.{Above, IsStrict, edges_of-IsStrict}
use alloyvnc.Region.Bands.Strips.{IsNormal, Ordered, rects_of, band_spans-IsNormal, combine_lem}

eq_spans_refl : (l : List Span) → eq_spans l l ≡ true
unfolding eq_spans
eq_spans_refl [] = refl
eq_spans_refl (s ∷ l) = ground (arith, eq_spans_refl l)

eq_spans→≢ : (l m : List Span) → eq_spans l m ≡ false → l ≢ m
eq_spans→≢ l m h e = cc (ap (eq_spans l) e, eq_spans_refl l)

-- The open band may follow a band of spans `above` that ends at `y`, and ends by `prev`. With no
-- band open, there is a gap after `y` or nothing stands above.
abbrev Follows : I32 → List Span → I32 → Option Band → Type 0
Follows y above prev none = (y ≤ prev) × (y ≡ prev → above ≡ [])
Follows y above prev (some o) =
    (y ≤ o.y1)
    × (y ≡ o.y1 → above ≢ o.spans)
    × (o.y1 < o.y2)
    × (o.y2 ≤ prev)
    × (o.spans ≢ [])
    × Apart 0 o.spans

-- What one round flushes is a list of bands after which the open band may follow.
record Round (y : I32) (above : List Span) (prev : I32) (out : List Rect) (o : Option Band)
    : Type 0 where
  done : List Band
  made : out ≡ rects_of done
  end : I32
  last : List Span
  follows : Follows end last prev o
  joins : (bs : List Band) → Ordered end last bs → Ordered y above (done ++ bs)

band_step-Round :
    (y : I32) (above : List Span) (o : Option Band) (y1 y2 : I32) (spans : List Span)
    → Follows y above y1 o
    → y1 < y2
    → Apart 0 spans
    → Round y above y2 (band_step o y1 y2 spans).0 (band_step o y1 y2 spans).1
unfolding band_step rects_of
band_step-Round y above none y1 y2 [] f h a = record {
  done = [];
  made = refl;
  end = y;
  last = above;
  follows = (omega arith, λ e. absurd (omega arith));
  joins = λ bs o. o;
}
band_step-Round y above (some o) y1 y2 [] f h a = record {
  done = o ∷ [];
  made = sym (append-nil _);
  end = o.y2;
  last = o.spans;
  follows = (omega arith, λ e. absurd (omega arith));
  joins = λ bs r. (f.0, f.1, f.2, f.4, f.5, r);
}
band_step-Round y above none y1 y2 (s ∷ l) f h a = record {
  done = [];
  made = refl;
  end = y;
  last = above;
  follows = (f.0, λ e same. cc (f.1 e), h, omega arith, λ e. cc, a);
  joins = λ bs o. o;
}
band_step-Round y above (some o) y1 y2 (s ∷ l) f h a =
    elim (Bool-cases (o.y2 == y1 && eq_spans o.spans (s ∷ l))) [
      | inl same ↦ rw same (record {
        done = [];
        made = refl;
        end = y;
        last = above;
        follows = (f.0, f.1, omega arith, omega arith, f.4, f.5);
        joins = λ bs r. r;
      })
      | inr other ↦ rw other (record {
        done = o ∷ [];
        made = sym (append-nil _);
        end = o.y2;
        last = o.spans;
        follows = (
          f.3,
          λ e alike. ground (arith, eq_spans→≢ o.spans (s ∷ l)),
          h,
          omega arith,
          λ e. cc,
          a,
        );
        joins = λ bs r. (f.0, f.1, f.2, f.4, f.5, r);
      })
    ]

rects_of-append : (bs cs : List Band) → rects_of (bs ++ cs) ≡ rects_of bs ++ rects_of cs
unfolding rects_of
rects_of-append [] cs = refl
rects_of-append (b ∷ bs) cs = simp (rects_of-append bs cs, append_assoc)

record Banded (y : I32) (above : List Span) (rs : List Rect) : Type 0 where
  bands : List Band
  made : rs ≡ rects_of bands
  ordered : Ordered y above bands

flush-Banded :
    (y : I32) (above : List Span) (prev : I32) (o : Option Band)
    → Follows y above prev o
    → Banded y above (flush o)
unfolding flush rects_of
flush-Banded y above prev none f = record { bands = []; made = refl; ordered = tt }
flush-Banded y above prev (some o) f = record {
  bands = o ∷ [];
  made = sym (append-nil _);
  ordered = (f.0, f.1, f.2, f.4, f.5, tt);
}

module _ (kind : Op) (a b : List Rect) (na : IsNormal a) (nb : IsNormal b) where
  band_loop-Banded :
      (y : I32) (above : List Span) (o : Option Band) (y1 : I32) (es : List I32)
      → Follows y above y1 o
      → Above y1 es
      → Banded y above (band_loop kind a b o y1 es)
  unfolding band_loop
  band_loop-Banded y above o y1 [] f h = flush-Banded y above y1 o f
  band_loop-Banded y above o y1 (y2 ∷ es) f h =
      let sa = band_spans-IsNormal a y1 y2 na h.0 in
      let sb = band_spans-IsNormal b y1 y2 nb h.0 in
      let spans : List Span = combine kind (band_spans a y1 y2) (band_spans b y1 y2) in
      let apart = (combine_lem kind (band_spans a y1 y2) (band_spans b y1 y2) sa.1 sb.1).1 in
      let step : List Rect × Option Band = band_step o y1 y2 spans in
      let r = band_step-Round y above o y1 y2 spans f h.0 apart in
      let rest = band_loop-Banded r.end r.last step.1 y2 es r.follows h.1 in
      record {
        bands = r.done ++ rest.bands;
        made = rw (r.made, rest.made) (sym (rects_of-append r.done rest.bands));
        ordered = r.joins rest.bands rest.ordered;
      }

  band_walk-Banded : (es : List I32) → IsStrict es → Banded 0 [] (band_walk kind a b es)
  unfolding band_walk rects_of
  band_walk-Banded [] h = record { bands = []; made = refl; ordered = tt }
  band_walk-Banded (e ∷ es) h = band_loop-Banded 0 [] none e es (omega arith, λ z. refl) h

-- The walk over the bands of two regions in normal form puts out one in normal form.
pub band_walk-IsNormal :
    (kind : Op) (a b : List Rect)
    → IsNormal a
    → IsNormal b
    → IsNormal (band_walk kind a b (edges_of a b))
band_walk-IsNormal kind a b na nb =
    let w = band_walk-Banded kind a b na nb (edges_of a b) (edges_of-IsStrict a b) in
    record { bands = w.bands; made = w.made; ordered = w.ordered }
