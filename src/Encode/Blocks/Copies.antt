-- ===== src/Encode/Blocks/Copies.antt =====
-- `copy_within` of crates/alloyvnc-encode/src/framebuffer.rs from its call to its result.
use alloyvnc.Base.{
  ℕ, ◌+◌, ◌-◌, ◌*◌, ◌≤◌, ◌<◌, ◌≡◌, refl, sym, ap, ◌∙◌, true, false, ◌&&◌, some, arith, leb,
}
use alloyvnc.Base.Words.{I32, bias, bits_i32, add_i32}
use alloyvnc.Region.Rect
use alloyvnc.Region.Rect.{Rect}
use alloyvnc.Encode.Framebuffer
use alloyvnc.Encode.Framebuffer.{Framebuffer, stride}
use alloyvnc.Encode.Lengths.{Fits, overlap_lem, bounds_lem}
use alloyvnc.Encode.Blocks.{moved, copy_within}
use alloyvnc.Encode.Blocks.Stretches.{byte_at}
use alloyvnc.Encode.Blocks.Moves.{block_lem}

-- The part of the destination that is in the picture.
pub record Clip (fb : Framebuffer) (c : Rect) : Type 0 where
  pub left : bits_i32 c.x1 ≡ c.x1 - bias
  pub top : bits_i32 c.y1 ≡ c.y1 - bias
  pub across : bits_i32 (Rect.width c) ≡ c.x2 - c.x1
  pub x1 : bias ≤ c.x1
  pub x2 : c.x1 < c.x2
  pub x3 : c.x2 ≤ bias + fb.width
  pub y1 : bias ≤ c.y1
  pub y2 : c.y1 < c.y2
  pub y3 : c.y2 ≤ bias + fb.height

pub clip_lem :
    (fb : Framebuffer) (r : Rect)
    → Fits fb
    → Rect.is_empty (Rect.intersection r (Framebuffer.bounds fb)) ≡ false
    → Clip fb (Rect.intersection r (Framebuffer.bounds fb))
unfolding Rect.width
clip_lem fb r f e =
    let c : Rect = Rect.intersection r (Framebuffer.bounds fb) in
    let o = overlap_lem r (Framebuffer.bounds fb) e in
    let b = bounds_lem fb f in
    let p1 : bias ≤ c.x1 = rw (o.0, b.0) (omega arith) in
    let p2 : c.x1 < c.x2 = rw (o.0, o.1.0) o.1.1.1.1.0 in
    let p3 : c.x2 ≤ bias + fb.width = rw (o.1.0, b.1.0) (omega arith) in
    let q1 : bias ≤ c.y1 = rw (o.1.1.0, b.1.1.0) (omega arith) in
    let q2 : c.y1 < c.y2 = rw (o.1.1.0, o.1.1.1.0) o.1.1.1.1.1 in
    let q3 : c.y2 ≤ bias + fb.height = rw (o.1.1.1.0, b.1.1.1) (omega arith) in
    let n = f.narrow in
    let l = f.low in
    record {
      left = omega (arith, p1, p2, p3, n);
      top = omega (arith, q1, q2, q3, l);
      across = ground (arith, p1, p2, p3, n);
      x1 = p1;
      x2 = p2;
      x3 = p3;
      y1 = q1;
      y2 = q2;
      y3 = q3;
    }

-- The sides of the clipped destination as numbers.
sides_lem :
    (fb : Framebuffer) (c : Rect)
    → Fits fb
    → Clip fb c
    → (Rect.width c ≡ bias + (c.x2 - c.x1)) × (Rect.height c ≡ bias + (c.y2 - c.y1))
unfolding Rect.width Rect.height
sides_lem fb c f k =
    let n = f.narrow in
    let l = f.low in
    let p1 = k.x1 in
    let p2 = k.x2 in
    let p3 = k.x3 in
    let q1 = k.y1 in
    let q2 = k.y2 in let q3 = k.y3 in (ground (arith, p1, p2, p3, n), ground (arith, q1, q2, q3, l))

corners_lem :
    (q : Rect) (x y w h : I32)
    → leb q.x1 x && (leb q.y1 y && (leb (add_i32 x w) q.x2 && leb (add_i32 y h) q.y2)) ≡ true
    → Rect.contains q (Rect.new x y w h) ≡ true
unfolding Rect.contains Rect.new
corners_lem q x y w h e = ground (arith, e)

-- The source rectangle of a block that is in the picture.
source_lem :
    (fb : Framebuffer) (c : Rect) (src_x src_y : ℕ)
    → Fits fb
    → Clip fb c
    → src_x + (c.x2 - c.x1) ≤ fb.width
    → src_y + (c.y2 - c.y1) ≤ fb.height
    → Rect.contains
        (Framebuffer.bounds fb)
        (Rect.new (bits_i32 src_x) (bits_i32 src_y) (Rect.width c) (Rect.height c))
      ≡ true
source_lem fb c src_x src_y f k a b =
    let e = bounds_lem fb f in
    let e1 = e.0 in
    let e2 = e.1.0 in
    let e3 = e.1.1.0 in
    let e4 = e.1.1.1 in
    let n = f.narrow in
    let l = f.low in
    let s = sides_lem fb c f k in
    let x1 : bits_i32 src_x ≡ bias + src_x = omega (arith, a, n) in
    let y1 : bits_i32 src_y ≡ bias + src_y = omega (arith, b, l) in
    let x2 : add_i32 (bits_i32 src_x) (Rect.width c) ≡ bias + (src_x + (c.x2 - c.x1)) =
      rw (s.0, x1) (omega (arith, a, n)) in
    let y2 : add_i32 (bits_i32 src_y) (Rect.height c) ≡ bias + (src_y + (c.y2 - c.y1)) =
      rw (s.1, y1) (omega (arith, b, l)) in
    corners_lem (Framebuffer.bounds fb) (bits_i32 src_x) (bits_i32 src_y) (Rect.width c)
      (Rect.height c) (rw (x2, y2, x1, y1, e1, e2, e3, e4) (ground (arith, a, b)))

-- The same for any destination, by the places of its part in the picture.
clipped_lem :
    (fb : Framebuffer) (src_x src_y : ℕ) (rect : Rect)
    → Fits fb
    → let c = Rect.intersection rect (Framebuffer.bounds fb) in
      Rect.is_empty c ≡ false
      → src_x + (c.x2 - c.x1) ≤ fb.width
      → src_y + (c.y2 - c.y1) ≤ fb.height
      → (row column : ℕ) → row < c.y2 - c.y1
      → column < (c.x2 - c.x1) * 4
      → (out : Framebuffer) × ((copy_within fb src_x src_y rect ≡ some out)
          × (byte_at out.pixels (stride fb) (c.y1 - bias + row) ((c.x1 - bias) * 4 + column)
              ≡ byte_at fb.pixels (stride fb) (src_y + row) (src_x * 4 + column)))
unfolding copy_within
clipped_lem fb src_x src_y rect f e a b row column h g =
    let c : Rect = Rect.intersection rect (Framebuffer.bounds fb) in
    let k = clip_lem fb rect f e in
    let s = source_lem fb c src_x src_y f k a b in
    let p1 = k.x1 in
    let p2 = k.x2 in
    let p3 = k.x3 in
    let q1 = k.y1 in
    let q2 = k.y2 in
    let q3 = k.y3 in
    let there =
      block_lem (stride fb) fb.height (c.y2 - c.y1) src_y (c.y1 - bias) (src_x * 4)
        ((c.x1 - bias) * 4) ((c.x2 - c.x1) * 4) fb.pixels f.whole b (omega (arith, q1, q2, q3))
        (omega (arith, a)) (omega (arith, p1, p2, p3)) row column h g in
    (moved fb src_x src_y c, (rw (e, s) refl, rw (k.left, k.top, k.across) there))

-- A block that is moved arrives as it was, also where it is moved over itself: for a destination
-- that begins neither left of the picture nor above it and has a point in it, and a source that is
-- in the picture as far as the destination is, each byte of each pixel of the destination that is
-- in the picture is the byte that the source had at the same place of the block.
pub copy_within_lem :
    (fb : Framebuffer) (src_x src_y : ℕ) (rect : Rect)
    → Fits fb
    → bias ≤ rect.x1
    → bias ≤ rect.y1
    → let c = Rect.intersection rect (Framebuffer.bounds fb) in
      Rect.is_empty c ≡ false
      → src_x + (c.x2 - rect.x1) ≤ fb.width
      → src_y + (c.y2 - rect.y1) ≤ fb.height
      → (row column : ℕ) → row < c.y2 - rect.y1
      → column < (c.x2 - rect.x1) * 4
      → (out : Framebuffer) × ((copy_within fb src_x src_y rect ≡ some out)
          × (byte_at out.pixels (stride fb) (rect.y1 - bias + row) ((rect.x1 - bias) * 4 + column)
              ≡ byte_at fb.pixels (stride fb) (src_y + row) (src_x * 4 + column)))
copy_within_lem fb src_x src_y rect f l t e a b row column h g =
    let c : Rect = Rect.intersection rect (Framebuffer.bounds fb) in
    let o = overlap_lem rect (Framebuffer.bounds fb) e in
    let n = bounds_lem fb f in
    let left : c.x1 ≡ rect.x1 = rw (o.0, n.0) (omega arith) in
    let top : c.y1 ≡ rect.y1 = rw (o.1.1.0, n.1.1.0) (omega arith) in
    let r =
      clipped_lem fb src_x src_y rect f e (omega (arith, left, a)) (omega (arith, top, b)) row
        column (omega (arith, top, h)) (omega (arith, left, g)) in
    let out : Framebuffer = r.0 in
    let across : (rect.x1 - bias) * 4 + column ≡ (c.x1 - bias) * 4 + column =
      ap (λ x. (x - bias) * 4 + column) (sym left) in
    let down : rect.y1 - bias + row ≡ c.y1 - bias + row = ap (λ y. y - bias + row) (sym top) in
    (
      out,
      (
        r.1.0,
        ap (λ y. byte_at out.pixels (stride fb) y ((rect.x1 - bias) * 4 + column)) down
            ∙ (ap (λ x. byte_at out.pixels (stride fb) (c.y1 - bias + row) x) across ∙ r.1.1),
      ),
    )
