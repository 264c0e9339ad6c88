-- ===== src/Encode/Compare/Loops.antt =====
-- What the loops of crates/alloyvnc-encode/src/compare.rs do to the cells of rectangles.
use mathlib.Core.Path.{subst}
use alloyvnc.Base.{
  ℕ, zero, suc, ◌+◌, ◌-◌, ◌*◌, ◌/◌, ◌≤◌, ◌<◌, ◌≡◌, refl, ◌∙◌, inl, inr, true, false, ◌&&◌, ◌||◌,
  Bool-cases, List, [], ◌∷◌, arith, leb, ◌==◌,
}
use alloyvnc.Base.Words.{I32, bias}
use alloyvnc.Region.Rect
use alloyvnc.Region.Rect.{Rect}
use alloyvnc.Region.Bands.{holds}
use alloyvnc.Proto.Wire.{Bytes}
use alloyvnc.Encode.Framebuffer
use alloyvnc.Encode.Framebuffer.{Framebuffer}
use alloyvnc.Encode.Lengths.{overlap_lem}
use alloyvnc.Region.Rect.Points.{point_lem, empty_point, contains_point-intersection}
use alloyvnc.Encode.Compare.{Tightener, segment, columns, each_cell, each_row, each_in, each_rect}
use alloyvnc.Encode.Compare.Marking.{Narrow, Sized, Current, cols_of, cell_at}

-- A rectangle inside the picture that is not empty.
pub record Within (fb : Framebuffer) (r : Rect) : Type 0 where
  pub left : bias ≤ r.x1
  pub across : r.x1 < r.x2
  pub right : r.x2 ≤ bias + fb.width
  pub top : bias ≤ r.y1
  pub down : r.y1 < r.y2
  pub bottom : r.y2 ≤ bias + fb.height

pub columns_lem :
    (fb : Framebuffer) (t : Tightener) (r : Rect)
    → Narrow fb
    → Sized fb t
    → Within fb r
    → ((columns t r).0 ≡ (r.x1 - bias) / segment)
      × (((columns t r).1 ≡ (r.x2 - bias + 63) / segment)
          × ((r.x2 - bias + 63) / segment ≤ cols_of fb))
unfolding columns Rect.is_empty
columns_lem fb t r n s w =
    let a = n.across in
    let p = w.left in
    let q = w.across in
    let k = w.right in
    let d = w.down in
    let full : leb r.x2 r.x1 || leb r.y2 r.y1 ≡ false = ground (arith, q, d) in
    let few : (r.x2 - bias + 63) / segment ≤ cols_of fb = omega (arith, a, p, q, k) in
    rw full (rw s.cols (ground (arith, a, p, q, k), (ground (arith, a, p, q, k, few), few)))

pub edges_lem :
    (fb : Framebuffer)
    → Narrow fb
    → ((Framebuffer.bounds fb).x1 ≡ bias)
      × (((Framebuffer.bounds fb).x2 ≡ bias + fb.width)
          × (((Framebuffer.bounds fb).y1 ≡ bias) × ((Framebuffer.bounds fb).y2 ≡ bias + fb.height)))
unfolding Framebuffer.bounds Rect.new
edges_lem fb n =
    let a = n.across in let b = n.down in (omega arith, (omega arith, (omega arith, omega arith)))

-- A clipped rectangle is inside the picture.
pub clipped-Within :
    (fb : Framebuffer) (r : Rect)
    → Narrow fb
    → Rect.is_empty (Rect.intersection r (Framebuffer.bounds fb)) ≡ false
    → Within fb (Rect.intersection r (Framebuffer.bounds fb))
clipped-Within fb r n f =
    let o = overlap_lem r (Framebuffer.bounds fb) f in
    let b = edges_lem fb n in
    record {
      left = rw (o.0, b.0) (omega arith);
      across = rw (o.0, o.1.0) o.1.1.1.1.0;
      right = rw (o.1.0, b.1.0) (omega arith);
      top = rw (o.1.1.0, b.1.1.0) (omega arith);
      down = rw (o.1.1.0, o.1.1.1.0) o.1.1.1.1.1;
      bottom = rw (o.1.1.1.0, b.1.1.1) (omega arith);
    }

-- A point of a rectangle and of the picture is in the clipped rectangle.
pub clipped_point :
    (fb : Framebuffer) (r : Rect) (x w : I32)
    → Rect.contains_point r x w ≡ true
    → Rect.contains_point (Framebuffer.bounds fb) x w ≡ true
    → Rect.contains_point (Rect.intersection r (Framebuffer.bounds fb)) x w ≡ true
clipped_point fb r x w h k =
    contains_point-intersection r (Framebuffer.bounds fb) x w
    ∙ (let z : true && true ≡ true = refl in rw (h, k) z)

-- What a loop keeps, whatever its body does to one cell.
pub record Walks (hash : Bytes → ℕ) (fb : Framebuffer) (body : I32 → ℕ → Tightener → Tightener)
    : Type 1 where
  pub Goes : Tightener → Tightener → Type 0
  pub same : (t : Tightener) → Sized fb t → Goes t t
  pub chain : (t u v : Tightener) → Goes t u → Goes u v → Goes t v
  pub sized : (t u : Tightener) → Goes t u → Sized fb u
  pub stays : (t u : Tightener) → Goes t u → (i : ℕ) → Current hash fb t i → Current hash fb u i
  pub one :
      (t : Tightener) (y : I32) (c : ℕ)
      → Sized fb t
      → bias ≤ y
      → y < bias + fb.height
      → c < cols_of fb
      → Goes t (body y c t) × Current hash fb (body y c t) ((y - bias) * cols_of fb + c)

module _ (hash : Bytes → ℕ) (fb : Framebuffer) (body : I32 → ℕ → Tightener → Tightener)
    (ws : Walks hash fb body) where
  -- A run of columns of a row.
  each_cell_lem :
      (n c : ℕ) (y : I32) (t : Tightener)
      → Narrow fb
      → Sized fb t
      → bias ≤ y
      → y < bias + fb.height
      → c + n ≤ cols_of fb
      → ws.Goes t (each_cell body n c y t)
        × ((k : ℕ)
            → c ≤ k
            → k < c + n
            → Current hash fb (each_cell body n c y t) ((y - bias) * cols_of fb + k))
  unfolding each_cell
  each_cell_lem zero c y t nw s a b e = (ws.same t s, λ k l m. absurd (omega arith))
  each_cell_lem (suc n) c y t nw s a b e =
      let g = ws.one t y c s a b (omega (arith, e)) in
      let t' : Tightener = body y c t in
      let rest = each_cell_lem n (c + 1) y t' nw (ws.sized t t' g.0) a b (omega (arith, e)) in
      (
        ws.chain t t' _ g.0 rest.0,
        λ k l m. elim (Bool-cases (c == k)) [
          | inl same ↦
              let q : c ≡ k = ground arith in
              ws.stays t' _ rest.0 _
                (subst (λ i. Current hash fb t' ((y - bias) * cols_of fb + i)) q g.1)
          | inr other ↦ rest.1 k (ground (arith, other, l)) (omega (arith, m))
        ],
      )

  -- The rows of a rectangle.
  each_row_lem :
      (n : ℕ) (y : I32) (r : Rect) (t : Tightener)
      → Narrow fb
      → Sized fb t
      → Within fb r
      → bias ≤ y
      → y + n ≤ bias + fb.height
      → ws.Goes t (each_row body n y r t)
        × ((x w : I32)
            → r.x1 ≤ x
            → x < r.x2
            → y ≤ w
            → w < y + n
            → Current hash fb (each_row body n y r t) (cell_at fb x w))
  unfolding each_row
  each_row_lem zero y r t nw s i a b = (ws.same t s, λ x w h k l m. absurd (omega arith))
  each_row_lem (suc n) y r t nw s i a b =
      let c = columns_lem fb t r nw s i in
      let p = i.left in
      let q = i.across in
      let row =
        each_cell_lem ((columns t r).1 - (columns t r).0) (columns t r).0 y t nw s a
          (omega (arith, b)) (rw (c.0, c.1.0) (omega (arith, c.1.1, q))) in
      let t' : Tightener = each_cell body ((columns t r).1 - (columns t r).0) (columns t r).0 y t in
      let rest =
        each_row_lem n (y + 1) r t' nw (ws.sized t t' row.0) i (omega (arith, a))
          (omega (arith, b)) in
      (
        ws.chain t t' _ row.0 rest.0,
        λ x w h k l m. elim (Bool-cases (y == w)) [
          | inl same ↦
              let z : y ≡ w = ground arith in
              let now =
                row.1 ((x - bias) / segment) (rw c.0 (omega (arith, h, p)))
                  (rw (c.0, c.1.0) (omega (arith, k, p, h, q))) in
              ws.stays t' _ rest.0 _ (
                subst (λ j. Current hash fb t' ((j - bias) * cols_of fb + (x - bias) / segment)) z
                  now)
          | inr other ↦ rest.1 x w h k (ground (arith, other, l)) (omega (arith, m))
        ],
      )

  pub each_in_lem :
      (r : Rect) (t : Tightener)
      → Narrow fb
      → Sized fb t
      → ws.Goes t (each_in fb body r t)
        × ((x w : I32)
            → Rect.contains_point (Rect.intersection r (Framebuffer.bounds fb)) x w ≡ true
            → Current hash fb (each_in fb body r t) (cell_at fb x w))
  unfolding each_in
  each_in_lem r t nw s =
      let c : Rect = Rect.intersection r (Framebuffer.bounds fb) in
      elim (Bool-cases (Rect.is_empty c)) [
        | inl none_left ↦ rw none_left (
          ws.same t s,
          λ x w h. absurd (let no = empty_point c x w none_left in ground (arith, no, h)),
        )
        | inr some_left ↦
            let i = clipped-Within fb r nw some_left in
            let d = i.down in
            let rows =
              each_row_lem (c.y2 - c.y1) c.y1 c t nw s i i.top
                (let b = i.bottom in omega (arith, d, b)) in
            rw some_left (
              rows.0,
              λ x w h.
                  let p = point_lem c x w h in
                  rows.1 x w p.0 p.1.0 p.1.1.0 (let q = p.1.1.1 in omega (arith, d, q)),
            )
      ]

  -- The whole damage.
  pub each_rect_lem :
      (rs : List Rect) (t : Tightener)
      → Narrow fb
      → Sized fb t
      → ws.Goes t (each_rect fb body rs t)
        × ((x w : I32)
            → holds x w rs ≡ true
            → Rect.contains_point (Framebuffer.bounds fb) x w ≡ true
            → Current hash fb (each_rect fb body rs t) (cell_at fb x w))
  unfolding each_rect
  each_rect_lem [] t nw s = (ws.same t s, λ x w h k. absurd (ground (arith, h)))
  each_rect_lem (r ∷ rs) t nw s =
      let one = each_in_lem r t nw s in
      let rest = each_rect_lem rs _ nw (ws.sized t _ one.0) in
      (
        ws.chain t _ _ one.0 rest.0,
        λ x w h k. elim (Bool-cases (Rect.contains_point r x w)) [
          | inl hit ↦
              let here = clipped_point fb r x w hit k in ws.stays _ _ rest.0 _ (one.1 x w here)
          | inr miss ↦ rest.1 x w (ground (arith, h, miss)) k
        ],
      )
