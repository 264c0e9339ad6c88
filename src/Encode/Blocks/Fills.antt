-- ===== src/Encode/Blocks/Fills.antt =====
-- `fill` of crates/alloyvnc-encode/src/framebuffer.rs: the pixels of the rectangle, and no other.
use mathlib.Core.Path.{subst}
use alloyvnc.Base.{
  ℕ, zero, suc, ◌+◌, ◌-◌, ◌*◌, ◌/◌, ◌%◌, ◌≤◌, ◌<◌, ◌≡◌, refl, ◌∙◌, sym, ap, inl, inr, ◌⊎◌, true,
  false, Bool-cases, ◌++◌, length, length-append, get_or, get_or-append, arith, ltb, ◌==◌,
  if◌then◌else◌,
}
use alloyvnc.Base.Words.{I32, bias, bits_i32}
use alloyvnc.Region.Rect
use alloyvnc.Region.Rect.{Rect}
use alloyvnc.Proto.Wire.{Bytes}
use alloyvnc.Encode.Framebuffer
use alloyvnc.Encode.Framebuffer.{Framebuffer, stride, write_at}
use alloyvnc.Encode.Lengths.{Fits, bounds_lem}
use alloyvnc.Region.Rect.Points.{empty_point, contains_point-intersection}
use alloyvnc.Region.Rect.Points.{point_lem}
use alloyvnc.Encode.Blocks.{repeated, fill_rows, fill}
use alloyvnc.Encode.Blocks.Stretches.{byte_at, Stretch, write_row_lem, beside_lem}
use alloyvnc.Encode.Blocks.Copies.{Clip, clip_lem}

module _ (px : Bytes) (four : length px ≡ 4) where
  length-repeated : (n : ℕ) → length (repeated n px) ≡ n * 4
  unfolding repeated
  length-repeated zero = omega arith
  length-repeated (suc n) =
      let rest = length-repeated n in length-append px (repeated n px) ∙ omega (arith, rest, four)

  repeated_lem : (n k j : ℕ) → k < n → j < 4 → get_or (repeated n px) (k * 4 + j) 0 ≡ get_or px j 0
  unfolding repeated
  repeated_lem zero k j h l = absurd (omega (arith, h))
  repeated_lem (suc n) zero j h l =
      ap (λ i. get_or (px ++ repeated n px) i 0) (first j)
      ∙ (get_or-append 0 px (repeated n px) j).0 (omega (arith, l, four))
    where
      first : (j : ℕ) → 0 * 4 + j ≡ j
      first j = omega arith
  repeated_lem (suc n) (suc k) j h l =
      ap (λ i. get_or (px ++ repeated n px) i 0) (next k j)
      ∙ ((get_or-append 0 px (repeated n px) (k * 4 + j)).1
          ∙ repeated_lem n k j (omega (arith, h)) l)
    where
      next : (k j : ℕ) → suc k * 4 + j ≡ length px + (k * 4 + j)
      next k j = omega (arith, four)

  -- The rows from `y` on, of a rectangle inside the picture.
  fill_rows_lem :
      (n : ℕ) (y : I32) (c : Rect) (fb : Framebuffer)
      → length fb.pixels ≡ fb.height * stride fb
      → fb.height < bias
      → Clip fb c
      → bias ≤ y
      → y + n ≤ bias + fb.height
      → let out = fill_rows n y c px fb in
        ((row column : ℕ)
          → column < stride fb
          → (row < y - bias)
            ⊎ ((y - bias + n ≤ row) ⊎ ((column < (c.x1 - bias) * 4) ⊎ ((c.x2 - bias) * 4 ≤ column)))
          → byte_at out.pixels (stride fb) row column ≡ byte_at fb.pixels (stride fb) row column)
        × ((i k j : ℕ)
            → i < n
            → k < c.x2 - c.x1
            → j < 4
            → byte_at out.pixels (stride fb) (y - bias + i) ((c.x1 - bias) * 4 + (k * 4 + j))
              ≡ get_or px j 0)
  unfolding fill_rows
  fill_rows_lem zero y c fb whole low q a b =
      (λ row column h o. refl, λ i k j h l m. absurd (omega (arith, h)))
  fill_rows_lem (suc n) y c fb whole low q a b =
      let bytes : Bytes = repeated (bits_i32 (Rect.width c)) px in
      let fb' : Framebuffer = record fb {
        pixels = write_at (bits_i32 y * stride fb + bits_i32 c.x1 * 4) bytes fb.pixels;
      } in
      let x1 = q.x1 in
      let x2 = q.x2 in
      let x3 = q.x3 in
      let across = q.across in
      let left = q.left in
      let size = length-repeated (bits_i32 (Rect.width c)) in
      let this : bits_i32 y ≡ y - bias = omega (arith, a, b, low) in
      let s : Stretch (stride fb) fb.height (bits_i32 y) (bits_i32 c.x1 * 4) (length bytes) =
        record {
          below = omega (arith, this, a, b);
          inside = omega (arith, size, across, left, x1, x2, x3);
        } in
      let w =
        write_row_lem (stride fb) fb.height (bits_i32 y) (bits_i32 c.x1 * 4) bytes fb.pixels whole
          s in
      let side =
        beside_lem (stride fb) fb.height (bits_i32 y) (bits_i32 c.x1 * 4) bytes fb.pixels whole s in
      let q' : Clip fb' c = record {
        left = left;
        top = q.top;
        across = across;
        x1 = x1;
        x2 = x2;
        x3 = x3;
        y1 = q.y1;
        y2 = q.y2;
        y3 = q.y3;
      } in
      let rest = fill_rows_lem n (y + 1) c fb' w.0 low q' (omega (arith, a)) (omega (arith, b)) in
      (
        λ row column h o.
            rest.0 row column h (ground (arith, o, a)) ∙ elim (Bool-cases (row == bits_i32 y)) [
              | inl same ↦
                  let e : bits_i32 y ≡ row = ground (arith, same) in
                  subst
                    (λ r.
                      byte_at fb'.pixels (stride fb) r column
                      ≡ byte_at fb.pixels (stride fb) r column)
                    e (side column (ground (arith, o, e, this, size, across, left, x1, x2)))
              | inr other ↦ w.1.0 row column h (λ e. absurd (ground (arith, e, other)))
            ],
        λ i k j h l m. elim (Bool-cases (i == 0)) [
          | inl now ↦
              let e : bits_i32 y ≡ y - bias + i = ground (arith, now, this) in
              rest.0 (y - bias + i) ((c.x1 - bias) * 4 + (k * 4 + j))
                (omega (arith, l, m, x1, x2, x3)) (inl (ground (arith, now, a)))
              ∙ (ap (λ r. byte_at fb'.pixels (stride fb) r ((c.x1 - bias) * 4 + (k * 4 + j)))
                    (sym e)
                  ∙ (ap (λ r. byte_at fb'.pixels (stride fb) (bits_i32 y) (r * 4 + (k * 4 + j)))
                        (sym left)
                      ∙ (w.1.1 (k * 4 + j) (omega (arith, size, across, l, m))
                          ∙ repeated_lem (bits_i32 (Rect.width c)) k j (omega (arith, across, l))
                              m)))
          | inr later ↦
              let e : y + 1 - bias + (i - 1) ≡ y - bias + i = ground (arith, later, a) in
              ap
                (λ r.
                  byte_at (fill_rows n (y + 1) c px fb').pixels (stride fb) r
                    ((c.x1 - bias) * 4 + (k * 4 + j)))
                (sym e)
              ∙ rest.1 (i - 1) k j (ground (arith, later, h)) l m
        ],
      )

inside_bounds :
    (fb : Framebuffer) (row column : ℕ)
    → Fits fb
    → row < fb.height
    → column < stride fb
    → Rect.contains_point (Framebuffer.bounds fb) (bias + column / 4) (bias + row) ≡ true
unfolding Rect.contains_point
inside_bounds fb row column f a b =
    let e = bounds_lem fb f in
    let e1 = e.0 in
    let e2 = e.1.0 in
    let e3 = e.1.1.0 in
    let e4 = e.1.1.1 in
    let c : column / 4 < fb.width = omega (arith, b) in ground (arith, e1, e2, e3, e4, a, c)

-- A byte that is not of a pixel of the rectangle is beside it, above it or below it.
beside_rect :
    (c : Rect) (row column : ℕ)
    → bias ≤ c.x1
    → bias ≤ c.y1
    → c.y1 < c.y2
    → Rect.contains_point c (bias + column / 4) (bias + row) ≡ false
    → (row < c.y1 - bias)
      ⊎ ((c.y1 - bias + (c.y2 - c.y1) ≤ row)
          ⊎ ((column < (c.x1 - bias) * 4) ⊎ ((c.x2 - bias) * 4 ≤ column)))
unfolding Rect.contains_point
beside_rect c row column a b d e = elim (Bool-cases (ltb row (c.y1 - bias))) [
  | inl above ↦ inl (ground (arith, above))
  | inr not_above ↦ elim (Bool-cases (ltb (bias + row) c.y2)) [
    | inl not_below ↦ elim (Bool-cases (ltb column ((c.x1 - bias) * 4))) [
      | inl left ↦ inr (inr (inl (ground (arith, left))))
      | inr not_left ↦ inr (inr (inr (ground (arith, not_left, not_below, not_above, a, b, e))))
    ]
    | inr below ↦ inr (inl (ground (arith, below, b, d)))
  ]
]

-- Filling sets the bytes of the pixels of the rectangle that the picture has to those of the
-- pixel, and leaves every other byte of the picture as it was.
pub fill_lem :
    (fb : Framebuffer) (rect : Rect) (px : Bytes) (row column : ℕ)
    → Fits fb
    → length px ≡ 4
    → row < fb.height
    → column < stride fb
    → byte_at (fill fb rect px).pixels (stride fb) row column ≡ (
        if Rect.contains_point rect (bias + column / 4) (bias + row)
        then get_or px (column % 4) 0
        else byte_at fb.pixels (stride fb) row column)
unfolding fill
fill_lem fb rect px row column f four a b =
    let c : Rect = Rect.intersection rect (Framebuffer.bounds fb) in
    let x : ℕ = bias + column / 4 in
    let w : ℕ = bias + row in
    let inb = inside_bounds fb row column f a b in
    let both = contains_point-intersection rect (Framebuffer.bounds fb) x w in
    let clipped : Rect.contains_point c x w ≡ Rect.contains_point rect x w =
      ground (arith, both, inb) in
    elim (Bool-cases (Rect.is_empty c)) [
      | inl none_left ↦
          let no = sym clipped ∙ empty_point c x w none_left in rw (none_left, no) refl
      | inr some_left ↦
          let q = clip_lem fb rect f some_left in
          let y1 = q.y1 in
          let y2 = q.y2 in
          let y3 = q.y3 in
          let x1 = q.x1 in
          let out : Framebuffer = fill_rows (c.y2 - c.y1) c.y1 c px fb in
          let rows =
            fill_rows_lem px four (c.y2 - c.y1) c.y1 c fb f.whole f.low q y1
              (omega (arith, y1, y2, y3)) in
          elim (Bool-cases (Rect.contains_point c x w)) [
            | inl hit ↦
                let p = point_lem c x w hit in
                let p1 = p.0 in
                let p2 = p.1.0 in
                let p3 = p.1.1.0 in
                let p4 = p.1.1.1 in
                let r : c.y1 - bias + (w - c.y1) ≡ row = omega (arith, p3, y1) in
                let k : (c.x1 - bias) * 4 + ((x - c.x1) * 4 + column % 4) ≡ column =
                  omega (arith, p1, x1) in
                let set =
                  rows.1 (w - c.y1) (x - c.x1) (column % 4) (omega (arith, p3, p4))
                    (omega (arith, p1, p2)) (omega arith) in
                let on : Rect.contains_point rect x w ≡ true = sym clipped ∙ hit in
                rw (some_left, on)
                  (ap (λ i. byte_at out.pixels (stride fb) i column) (sym r)
                    ∙ (ap (λ i. byte_at out.pixels (stride fb) (c.y1 - bias + (w - c.y1)) i) (sym k)
                        ∙ set))
            | inr miss ↦
                let off : Rect.contains_point rect x w ≡ false = sym clipped ∙ miss in
                rw (some_left, off) (rows.0 row column b (beside_rect c row column x1 y1 y2 miss))
          ]
    ]
