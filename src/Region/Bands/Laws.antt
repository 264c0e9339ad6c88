-- ===== src/Region/Bands/Laws.antt =====
-- What the operations of a `Region` promise (crates/alloyvnc-region/src/lib.rs): the set of points,
-- and the banded normal form.
use alloyvnc.Base.{
  ◌≡◌, refl, inl, inr, Bool, true, false, not, ◌&&◌, ◌||◌, Bool-cases, Option, none, some, List, [],
  ◌∷◌, arith,
}
use alloyvnc.Base.Words.{I32}
use alloyvnc.Region.Rect.{Rect}
use alloyvnc.Region.Bands.{
  Region, Op, union_op, intersect_op, subtract_op, new, is_empty, is_empty_list, holds,
  contains_point, op, shortcut, union, intersect, subtract, band_walk, edges_of,
}
use alloyvnc.Region.Bands.Strips.{IsNormal, rects_of, combine_bits}
use alloyvnc.Region.Bands.Cover.{band_walk_lem}
use alloyvnc.Region.Bands.Normal.{band_walk-IsNormal}

-- `out` is in normal form and holds the points that `want` says.
pub record Gives (want : I32 → I32 → Bool) (out : Region) : Type 0 where
  pub normal : IsNormal out.rects
  pub points : (x y : I32) → contains_point out x y ≡ want x y

same_region : {a b : Region} → some a ≡ some b → a ≡ b
same_region h = cc

pub nil-IsNormal : IsNormal []
unfolding rects_of
nil-IsNormal = record { bands = []; made = refl; ordered = tt }

is_empty_list→≡ : (rs : List Rect) → is_empty_list rs ≡ true → rs ≡ []
unfolding is_empty_list
is_empty_list→≡ [] h = refl
is_empty_list→≡ (r ∷ rs) h = cc

pub holds_empty : (x y : I32) (a : Region) → is_empty a ≡ true → holds x y a.rects ≡ false
unfolding is_empty
holds_empty x y a h = rw (is_empty_list→≡ a.rects h)

-- The early returns give what the walk would give.
shortcut-Gives :
    (kind : Op) (a b out : Region)
    → IsNormal a.rects
    → IsNormal b.rects
    → shortcut kind a b ≡ some out
    → IsNormal out.rects
      × ((x y : I32)
          → holds x y out.rects ≡ combine_bits kind (holds x y a.rects) (holds x y b.rects))
unfolding shortcut
shortcut-Gives union_op a b out na nb h = elim (Bool-cases (is_empty a)) [
  | inl ea ↦
      let e : b ≡ out = same_region (rw ea at h) in rw (← e) (nb, λ x y. rw (holds_empty x y a ea))
  | inr fa ↦ elim (Bool-cases (is_empty b)) [
    | inl eb ↦
        let e : a ≡ out = same_region (rw (fa, eb) at h) in
        rw (← e) (na, λ x y. rw (holds_empty x y b eb) (ground arith))
    | inr fb ↦ let n : ◌≡◌ {A = Option Region} none (some out) = rw (fa, fb) at h in cc
  ]
]
shortcut-Gives intersect_op a b out na nb h = elim (Bool-cases (is_empty a || is_empty b)) [
  | inl e ↦
      let e' : new ≡ out = same_region (rw e at h) in
      rw (← e') (nil-IsNormal, λ x y. ground (arith, holds_empty x y a, holds_empty x y b))
  | inr f ↦ let n : ◌≡◌ {A = Option Region} none (some out) = rw f at h in cc
]
shortcut-Gives subtract_op a b out na nb h = elim (Bool-cases (is_empty a)) [
  | inl ea ↦
      let e : new ≡ out = same_region (rw ea at h) in
      rw (← e) (nil-IsNormal, λ x y. rw (holds_empty x y a ea))
  | inr fa ↦ elim (Bool-cases (is_empty b)) [
    | inl eb ↦
        let e : a ≡ out = same_region (rw (fa, eb) at h) in
        rw (← e) (na, λ x y. rw (holds_empty x y b eb) (ground arith))
    | inr fb ↦ let n : ◌≡◌ {A = Option Region} none (some out) = rw (fa, fb) at h in cc
  ]
]

op_from :
    (kind : Op) (a b : Region) (o : Option Region)
    → shortcut kind a b ≡ o
    → op kind a b ≡ (elim o [
      | some r ↦ r
      | none ↦ record { rects = band_walk kind a.rects b.rects (edges_of a.rects b.rects) }
    ])
unfolding op
op_from kind a b none e = rw (e, op)
op_from kind a b (some r) e = rw (e, op)

op-Gives :
    (kind : Op) (a b : Region) (o : Option Region)
    → shortcut kind a b ≡ o
    → IsNormal a.rects
    → IsNormal b.rects
    → Gives (λ x y. combine_bits kind (contains_point a x y) (contains_point b x y)) (op kind a b)
unfolding contains_point
op-Gives kind a b none e na nb = rw (op_from kind a b none e) (record {
  normal = band_walk-IsNormal kind a.rects b.rects na nb;
  points = λ x y. band_walk_lem kind a.rects b.rects x y na nb;
})
op-Gives kind a b (some out) e na nb =
    let s = shortcut-Gives kind a b out na nb e in
    rw (op_from kind a b (some out) e) (record { normal = s.0; points = s.1 })

-- Of two regions in normal form: a point lies in the union exactly if it lies in one of them, and
-- the union is in normal form.
pub union-Gives :
    (a b : Region)
    → IsNormal a.rects
    → IsNormal b.rects
    → Gives (λ x y. contains_point a x y || contains_point b x y) (union a b)
unfolding union
union-Gives a b na nb = op-Gives union_op a b (shortcut union_op a b) refl na nb

-- Of two regions in normal form: a point lies in the intersection exactly if it lies in both, and
-- the intersection is in normal form.
pub intersect-Gives :
    (a b : Region)
    → IsNormal a.rects
    → IsNormal b.rects
    → Gives (λ x y. contains_point a x y && contains_point b x y) (intersect a b)
unfolding intersect
intersect-Gives a b na nb = op-Gives intersect_op a b (shortcut intersect_op a b) refl na nb

-- Of two regions in normal form: a point lies in the difference exactly if it lies in the first
-- and not in the second, and the difference is in normal form.
pub subtract-Gives :
    (a b : Region)
    → IsNormal a.rects
    → IsNormal b.rects
    → Gives (λ x y. contains_point a x y && not (contains_point b x y)) (subtract a b)
unfolding subtract
subtract-Gives a b na nb = op-Gives subtract_op a b (shortcut subtract_op a b) refl na nb
