-- ===== src/Region/Rect/Points.antt =====
-- The operations of a `Rect` (crates/alloyvnc-region/src/lib.rs) as sets of points.
use alloyvnc.Base.{◌+◌, ◌-◌, ◌≤◌, ◌<◌, min, max, ◌≡◌, Bool, true, false, ◌&&◌, arith, ltb, leb}
use alloyvnc.Base.Words.{I32, u32_mod, bias, add_i32}
use alloyvnc.Region.Rect.{
  Rect, is_empty, normalised, intersection, intersects, contains, contains_point, union_bounds,
  translate,
}

normalised_point : (r : Rect) (x y : I32) → contains_point (normalised r) x y ≡ contains_point r x y
unfolding contains_point normalised
normalised_point r x y = ground arith

max_le : (a b x : I32) → leb (max a b) x ≡ leb a x && leb b x
max_le a b x = ground arith

lt_min : (a b x : I32) → ltb x (min a b) ≡ ltb x a && ltb x b
lt_min a b x = ground arith

regroup :
    (a b c d e f g h : Bool)
    → (a && e) && (b && f) && (c && g) && (d && h) ≡ (a && b && c && d) && (e && f && g && h)
regroup a b c d e f g h = ground arith

-- A point lies in the overlap of two rectangles exactly if it lies in both.
pub contains_point-intersection :
    (r q : Rect) (x y : I32)
    → contains_point (intersection r q) x y ≡ contains_point r x y && contains_point q x y
unfolding intersection contains_point
contains_point-intersection r q x y =
    let overlap : Rect = record {
      x1 = max r.x1 q.x1;
      y1 = max r.y1 q.y1;
      x2 = min r.x2 q.x2;
      y2 = min r.y2 q.y2;
    } in
    rw (normalised_point overlap x y) (
      rw (
        max_le r.x1 q.x1 x,
        lt_min r.x2 q.x2 x,
        max_le r.y1 q.y1 y,
        lt_min r.y2 q.y2 y,
        regroup (leb r.x1 x) (ltb x r.x2) (leb r.y1 y) (ltb y r.y2) (leb q.x1 x) (ltb x q.x2)
            (leb q.y1 y) (ltb y q.y2),
      ))

pub empty_point : (r : Rect) (x y : I32) → is_empty r ≡ true → contains_point r x y ≡ false
unfolding contains_point is_empty
empty_point r x y h = ground arith

-- Two rectangles intersect exactly if they have a point in common: an overlap that is not empty
-- has its top left corner in both, and one that is empty has no point.
pub intersects_lem :
    (r q : Rect)
    → (intersects r q ≡ true
        → contains_point r (max r.x1 q.x1) (max r.y1 q.y1)
            && contains_point q (max r.x1 q.x1) (max r.y1 q.y1)
          ≡ true)
      × ((x y : I32)
          → intersects r q ≡ false
          → contains_point r x y && contains_point q x y ≡ false)
unfolding contains_point intersects
intersects_lem r q = (λ h. ground arith, λ x y h. ground arith)

-- `contains` says that every point of `q` is a point of `r`.
pub contains_lem :
    (r q : Rect)
    → (contains r q ≡ true
        → (x y : I32) → contains_point q x y ≡ true
        → contains_point r x y ≡ true)
      × (((x y : I32) → contains_point q x y ≡ true → contains_point r x y ≡ true)
          → contains r q ≡ true)
unfolding contains_point contains
contains_lem r q =
    (λ h x y p. ground arith, λ h. ground (arith, h q.x1 q.y1, h (q.x2 - 1) (q.y2 - 1)))

-- The bounds of two rectangles hold the points of both, and lie in every rectangle that is not
-- empty and contains both.
pub union_bounds_lem :
    (r q : Rect)
    → (contains (union_bounds r q) r ≡ true)
      × (contains (union_bounds r q) q ≡ true)
      × ((s : Rect)
          → is_empty s ≡ false
          → contains s r ≡ true
          → contains s q ≡ true
          → contains s (union_bounds r q) ≡ true)
unfolding contains union_bounds
union_bounds_lem r q = (ground arith, ground arith, λ s n a b. ground arith)

-- Moving a rectangle and a point by the same amount keeps the point in or out, where no
-- coordinate leaves the range of an `i32`.
pub contains_point-translate :
    (r : Rect) (dx dy x y : I32)
    → (bias ≤ r.x1 + dx) × (r.x1 + dx < u32_mod + bias)
    → (bias ≤ r.x2 + dx) × (r.x2 + dx < u32_mod + bias)
    → (bias ≤ r.y1 + dy) × (r.y1 + dy < u32_mod + bias)
    → (bias ≤ r.y2 + dy) × (r.y2 + dy < u32_mod + bias)
    → (bias ≤ x + dx) × (x + dx < u32_mod + bias)
    → (bias ≤ y + dy) × (y + dy < u32_mod + bias)
    → contains_point (translate r dx dy) (add_i32 x dx) (add_i32 y dy) ≡ contains_point r x y
unfolding contains_point translate
contains_point-translate r dx dy x y a b c d e f = ground arith

-- The sides of a point in a rectangle.
pub point_lem :
    (r : Rect) (x y : I32)
    → contains_point r x y ≡ true
    → (r.x1 ≤ x) × ((x < r.x2) × ((r.y1 ≤ y) × (y < r.y2)))
unfolding contains_point
point_lem r x y h = (ground arith, (ground arith, (ground arith, ground arith)))
