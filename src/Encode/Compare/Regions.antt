-- ===== src/Encode/Compare/Regions.antt =====
-- The regions that crates/alloyvnc-encode/src/compare.rs makes of cells, and takes moves from.
use alloyvnc.Base.{
  ℕ, ◌+◌, ◌-◌, ◌*◌, ◌/◌, ◌≤◌, ◌<◌, min, max, ◌≡◌, refl, ◌∙◌, sym, inl, inr, Bool, true, false, ◌&&◌,
  ◌||◌, Bool-cases, List, get_or, arith, ltb, leb,
}
use alloyvnc.Base.Words.{I32, bias, bits_i32, u32_mod}
use alloyvnc.Region.Rect
use alloyvnc.Region.Rect.{Rect, Move}
use alloyvnc.Region.Rect.Points.{empty_point}
use alloyvnc.Region.Spans.{Span}
use alloyvnc.Region.Spans.Order.{covers, Apart}
use alloyvnc.Region.Bands.{Region, contains_point}
use alloyvnc.Region.Bands.Strips.{IsNormal}
use alloyvnc.Region.Bands.Laws.{Gives}
use alloyvnc.Region.Bands.Rows.{from_rows}
use alloyvnc.Region.Bands.Rows.Laws.{InOrder, from_rows_lem}
use alloyvnc.Encode.Framebuffer
use alloyvnc.Encode.Framebuffer.{Framebuffer}
use alloyvnc.Encode.Compare.{
  Tightener, Columns, columns, is_changed, rows_from, changed_spans, region,
}
use alloyvnc.Encode.Compare.Spans.{
  inside, spans_from-Apart, covers-spans_from, InOrder-lo, rows_from-InOrder, row_holds-rows_from,
}
use alloyvnc.Encode.Compare.Marking.{Narrow, Sized, cols_of, cell_at}
use alloyvnc.Encode.Compare.Loops.{columns_lem, edges_lem, clipped-Within}
use alloyvnc.Region.Rect.Points.{point_lem}

InOrder-zero :
    (spans : I32 → List Span)
    → ((w : I32) → Apart 0 (spans w))
    → (n : ℕ) (y : I32) → y + n < u32_mod
    → InOrder 0 (rows_from spans n y)
InOrder-zero spans a n y h = InOrder-lo y 0 _ (omega arith) (rows_from-InOrder spans a n y h)

-- The region of the spans of some rows.
pub rows_lem :
    (spans : I32 → List Span)
    → ((w : I32) → Apart 0 (spans w))
    → (n : ℕ) (y : I32) → y + n < u32_mod
    → Gives
        (λ x w. leb y w && (ltb w (y + n) && covers x (spans w)))
        (from_rows (rows_from spans n y))
rows_lem spans a n y h =
    let g = from_rows_lem (rows_from spans n y) (InOrder-zero spans a n y h) in
    record { normal = g.normal; points = λ x w. g.points x w ∙ row_holds-rows_from spans x w n y }

empty_overlap :
    (r q : Rect) → Rect.is_empty (Rect.intersection r q) ≡ true → Rect.intersection r q ≡ Rect.empty
unfolding Rect.intersection Rect.normalised Rect.is_empty
empty_overlap r q h =
    elim (Bool-cases (leb (min r.x2 q.x2) (max r.x1 q.x1) || leb (min r.y2 q.y2) (max r.y1 q.y1))) [
      | inl on ↦ rw on refl
      | inr off ↦ absurd (ground (arith, off, h))
    ]

-- The columns of a clipped rectangle: a run of columns of the picture, with each column that the
-- rectangle has a pixel of.
pub record ColumnsOf (fb : Framebuffer) (r : Rect) (span : Columns) : Type 0 where
  pub ordered : span.0 ≤ span.1
  pub fits : span.1 * 64 < fb.width + 64
  pub most : span.1 ≤ cols_of fb
  pub low : r.y1 + (r.y2 - r.y1) < u32_mod
  pub top : bias ≤ r.y1
  pub bottom : r.y1 + (r.y2 - r.y1) ≤ bias + fb.height
  pub each :
      (x w : I32)
      → Rect.contains_point r x w ≡ true
      → (span.0 ≤ (x - bias) / 64)
        × (((x - bias) / 64 < span.1) × ((bias ≤ x) × (x < bias + fb.width)))

-- With nothing left of the rectangle there are no columns and no rows.
nothing-ColumnsOf :
    (fb : Framebuffer) (t : Tightener) (r : Rect)
    → let c : Rect = Rect.intersection r (Framebuffer.bounds fb) in
      Rect.is_empty c ≡ true → ColumnsOf fb c (columns t c)
unfolding columns
nothing-ColumnsOf fb t r off =
    let c : Rect = Rect.intersection r (Framebuffer.bounds fb) in
    let e : c ≡ Rect.empty = empty_overlap r (Framebuffer.bounds fb) off in
    rw off (record {
      ordered = omega arith;
      fits = omega arith;
      most = omega arith;
      low = rw e (omega arith);
      top = rw e (omega arith);
      bottom = rw e (omega arith);
      each = λ x w h. absurd (let no = empty_point c x w off in ground (arith, no, h));
    })

pub columns-ColumnsOf :
    (fb : Framebuffer) (t : Tightener) (r : Rect)
    → Narrow fb
    → Sized fb t
    → let c : Rect = Rect.intersection r (Framebuffer.bounds fb) in ColumnsOf fb c (columns t c)
columns-ColumnsOf fb t r n s =
    let c : Rect = Rect.intersection r (Framebuffer.bounds fb) in
    elim (Bool-cases (Rect.is_empty c)) [
      | inl off ↦ nothing-ColumnsOf fb t r off
      | inr on ↦
          let i = clipped-Within fb r n on in
          let l = columns_lem fb t c n s i in
          let a = i.left in
          let b = i.across in
          let d = i.right in
          let v = n.across in
          let f = i.bottom in
          let g = i.down in
          let k = n.down in
          record {
            ordered = rw (l.0, l.1.0) (omega (arith, a, b));
            fits = rw l.1.0 (omega (arith, a, b, d));
            most = rw l.1.0 l.1.1;
            low = omega (arith, f, g, k);
            top = i.top;
            bottom = omega (arith, f, g);
            each = λ x w h.
                let p = point_lem c x w h in
                rw (l.0, l.1.0)
                  (
                    omega (arith, p.0, a),
                    (
                      omega (arith, p.0, p.1.0, a),
                      (omega (arith, p.0, a), omega (arith, p.1.0, d)),
                    ),
                  );
          }
    ]

-- The bit of a pixel's cell.
abbrev pub bit : Framebuffer → Tightener → I32 → I32 → Bool
bit fb t x w = get_or t.changed (cell_at fb x w) false

bit_lem :
    (fb : Framebuffer) (t : Tightener) (x w : I32)
    → Sized fb t
    → bias ≤ w
    → w < u32_mod
    → is_changed t w ((x - bias) / 64) ≡ bit fb t x w
bit_lem fb t x w s a b =
    let row : bits_i32 w ≡ w - bias = omega (arith, a, b) in rw (s.cols, row) refl

covers-changed_spans :
    (fb : Framebuffer) (t : Tightener) (r : Rect) (span : Columns) (x w : I32)
    → Sized fb t
    → ColumnsOf fb r span
    → covers x (changed_spans t span w) ≡ inside (λ c. is_changed t w c) t.size.0 span.1 span.0 x
covers-changed_spans fb t r span x w s k =
    let f = k.fits in
    let o = k.ordered in
    (covers-spans_from (λ c. is_changed t w c) t.size.0 span.1 (rw s.width f) (span.1 - span.0)
      span.0 x (omega (arith, o))).0

changed_spans-Apart :
    (fb : Framebuffer) (t : Tightener) (r : Rect) (span : Columns) (w : I32)
    → Sized fb t
    → ColumnsOf fb r span
    → Apart 0 (changed_spans t span w)
changed_spans-Apart fb t r span w s k =
    let f = k.fits in
    let o = k.ordered in
    (spans_from-Apart (λ c. is_changed t w c) t.size.0 span.1 (rw s.width f) (span.1 - span.0)
        span.0 0 (omega (arith, o))).0
      (omega arith)

-- A point between the sides of the picture.
pub in_bounds :
    (fb : Framebuffer) (x w : I32)
    → Narrow fb
    → bias ≤ x
    → x < bias + fb.width
    → bias ≤ w
    → w < bias + fb.height
    → Rect.contains_point (Framebuffer.bounds fb) x w ≡ true
unfolding Rect.contains_point
in_bounds fb x w n a b c d =
    let e = edges_lem fb n in
    let e1 = e.0 in
    let e2 = e.1.0 in
    let e3 = e.1.1.0 in let e4 = e.1.1.1 in ground (arith, e1, e2, e3, e4, a, b, c, d)

-- What the region of the changed cells holds: pixels of the picture whose cell's bit is set, and
-- all of those in the rectangle it is made for.
pub record Reports (fb : Framebuffer) (t : Tightener) (r : Rect) (out : Region) : Type 0 where
  pub normal : IsNormal out.rects
  pub only :
      (x w : I32)
      → contains_point out x w ≡ true
      → (Rect.contains_point (Framebuffer.bounds fb) x w ≡ true) × (bit fb t x w ≡ true)
  pub all :
      (x w : I32)
      → Rect.contains_point r x w ≡ true
      → bit fb t x w ≡ true
      → contains_point out x w ≡ true

pub region-Reports :
    (fb : Framebuffer) (t : Tightener) (r : Rect) (span : Columns)
    → Narrow fb
    → Sized fb t
    → ColumnsOf fb r span
    → Reports fb t r (region t r span)
unfolding region
region-Reports fb t r span n s k =
    let g =
      rows_lem (changed_spans t span) (λ w. changed_spans-Apart fb t r span w s k) (r.y2 - r.y1)
        r.y1 k.low in
    let top = k.top in
    let down = k.bottom in
    let small = n.down in
    record {
      normal = g.normal;
      only = λ x w h.
          let c = covers-changed_spans fb t r span x w s k in
          let held = sym (g.points x w) ∙ h in
          let y1 : bias ≤ w = ground (arith, held, top) in
          let y2 : w < bias + fb.height = ground (arith, held, down) in
          let b = bit_lem fb t x w s y1 (omega (arith, y2, small)) in
          let wide = s.width in
          (
            in_bounds fb x w n (ground (arith, held, c)) (ground (arith, held, c, wide)) y1 y2,
            ground (arith, held, c, b),
          );
      all = λ x w h b.
          let p = point_lem r x w h in
          let e = k.each x w h in
          let c = covers-changed_spans fb t r span x w s k in
          let y2 = p.1.1.1 in
          let y1 = p.1.1.0 in
          let c1 = e.0 in
          let c2 = e.1.0 in
          let x1 = e.1.1.0 in
          let x2 = e.1.1.1 in
          let on =
            bit_lem fb t x w s (omega (arith, top, y1)) (omega (arith, y2, y1, down, small)) ∙ b in
          let wide = s.width in g.points x w ∙ ground (arith, c, on, c1, c2, x1, x2, y1, y2, wide);
    }
