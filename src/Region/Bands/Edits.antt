-- ===== src/Region/Bands/Edits.antt =====
-- Building a region rectangle by rectangle: `from_rect`, `add`, `remove` and `from_rects` of
-- crates/alloyvnc-region/src/lib.rs.
use alloyvnc.Base.{
  ◌≡◌, refl, ◌∙◌, sym, inl, inr, Bool, true, false, not, ◌&&◌, ◌||◌, Bool-cases, List, [], ◌∷◌,
  arith,
}
use alloyvnc.Base.Words.{I32}
use alloyvnc.Region.Rect
use alloyvnc.Region.Rect.{Rect}
use alloyvnc.Region.Rect.Points.{empty_point}
use alloyvnc.Region.Bands.{
  Region, new, from_rect, intersect_rect, is_empty, holds, contains_point, union, subtract, add,
  remove, add_all, from_rects, flush_spans,
}
use alloyvnc.Region.Bands.Strips.{IsNormal, rects_of, Ordered}
use alloyvnc.Region.Bands.Laws.{
  Gives, nil-IsNormal, holds_empty, union-Gives, intersect-Gives, subtract-Gives,
}

one_band :
    (r : Rect) → r ∷ [] ≡ rects_of (record { y1 = r.y1; y2 = r.y2; spans = (r.x1, r.x2) ∷ [] } ∷ [])
unfolding rects_of flush_spans
one_band r = refl

one-Ordered :
    (r : Rect)
    → Rect.is_empty r ≡ false
    → Ordered 0 [] (record { y1 = r.y1; y2 = r.y2; spans = (r.x1, r.x2) ∷ [] } ∷ [])
unfolding Rect.is_empty
one-Ordered r f =
    (omega arith, λ e k. cc, ground arith, λ e. cc, (omega arith, ground arith, tt), tt)

-- A rectangle as a region.
pub from_rect-Gives : (r : Rect) → Gives (λ x y. Rect.contains_point r x y) (from_rect r)
unfolding from_rect contains_point
from_rect-Gives r = elim (Bool-cases (Rect.is_empty r)) [
  | inl e ↦ rw e (record { normal = nil-IsNormal; points = λ x y. sym (empty_point r x y e) })
  | inr f ↦ rw f (record {
    normal = record {
      bands = record { y1 = r.y1; y2 = r.y2; spans = (r.x1, r.x2) ∷ [] } ∷ [];
      made = one_band r;
      ordered = one-Ordered r f;
    };
    points = λ x y. ground arith;
  })
]

Gives-want :
    (want want' : I32 → I32 → Bool) (out : Region)
    → ((x y : I32) → want x y ≡ want' x y)
    → Gives want out
    → Gives want' out
Gives-want want want' out h g = record { normal = g.normal; points = λ x y. g.points x y ∙ h x y }

add_lem :
    (a : Region) (r : Rect)
    → (Rect.is_empty r ≡ true → add a r ≡ a)
      × (Rect.is_empty r ≡ false → add a r ≡ union a (from_rect r))
unfolding add
add_lem a r = (λ e. rw e, λ f. rw f)

remove_lem :
    (a : Region) (r : Rect)
    → (Rect.is_empty r || is_empty a ≡ true → remove a r ≡ a)
      × (Rect.is_empty r || is_empty a ≡ false → remove a r ≡ subtract a (from_rect r))
unfolding remove
remove_lem a r = (λ e. rw e, λ f. rw f)

adding :
    (a : Region) (r : Rect)
    → IsNormal a.rects
    → Gives (λ x y. contains_point a x y || Rect.contains_point r x y) (add a r)
adding a r na = elim (Bool-cases (Rect.is_empty r)) [
  | inl e ↦
      rw ((add_lem a r).0 e)
        (record { normal = na; points = λ x y. rw (empty_point r x y e) (ground arith) })
  | inr f ↦
      let g = from_rect-Gives r in
      rw ((add_lem a r).1 f)
        (Gives-want _ _ _ (λ x y. rw (g.points x y)) (union-Gives a (from_rect r) na g.normal))
]

nothing_removed :
    (a : Region) (r : Rect) (x y : I32)
    → Rect.is_empty r || is_empty a ≡ true
    → contains_point a x y ≡ contains_point a x y && not (Rect.contains_point r x y)
unfolding contains_point
nothing_removed a r x y e = ground (arith, empty_point r x y, holds_empty x y a)

removing :
    (a : Region) (r : Rect)
    → IsNormal a.rects
    → Gives (λ x y. contains_point a x y && not (Rect.contains_point r x y)) (remove a r)
removing a r na = elim (Bool-cases (Rect.is_empty r || is_empty a)) [
  | inl e ↦
      rw ((remove_lem a r).0 e) (record { normal = na; points = λ x y. nothing_removed a r x y e })
  | inr f ↦
      let g = from_rect-Gives r in
      rw ((remove_lem a r).1 f)
        (Gives-want _ _ _ (λ x y. rw (g.points x y)) (subtract-Gives a (from_rect r) na g.normal))
]

add_all-Gives :
    (a : Region) (rs : List Rect)
    → IsNormal a.rects
    → Gives (λ x y. contains_point a x y || holds x y rs) (add_all a rs)
unfolding add_all
add_all-Gives a [] na = record { normal = na; points = λ x y. ground arith }
add_all-Gives a (r ∷ rs) na =
    let g = adding a r na in
    Gives-want _ _ _ (λ x y. rw (g.points x y) (ground arith)) (add_all-Gives (add a r) rs g.normal)

-- Adding a rectangle in place adds its points, and taking one away takes its points away; the
-- region stays in normal form.
pub add-remove :
    (a : Region) (r : Rect)
    → IsNormal a.rects
    → Gives (λ x y. contains_point a x y || Rect.contains_point r x y) (add a r)
      × Gives (λ x y. contains_point a x y && not (Rect.contains_point r x y)) (remove a r)
add-remove a r na = (adding a r na, removing a r na)

-- Whatever the rectangles, the region made of them holds the points of all of them, and is in
-- normal form.
pub from_rects-Gives : (rs : List Rect) → Gives (λ x y. holds x y rs) (from_rects rs)
unfolding from_rects contains_point
from_rects-Gives rs = add_all-Gives new rs nil-IsNormal

pub intersect_rect-Gives :
    (a : Region) (r : Rect)
    → IsNormal a.rects
    → Gives (λ x y. contains_point a x y && Rect.contains_point r x y) (intersect_rect a r)
unfolding intersect_rect
intersect_rect-Gives a r n =
    let g = from_rect-Gives r in
    Gives-want _ _ _ (λ x y. rw (g.points x y)) (intersect-Gives a (from_rect r) n g.normal)
