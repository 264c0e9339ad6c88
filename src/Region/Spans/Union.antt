-- ===== src/Region/Spans/Union.antt =====
-- `union_spans` is the union, in normal form (crates/alloyvnc-region/src/lib.rs).
use alloyvnc.Base.{
  ◌+◌, ◌≤◌, ◌<◌, ◌≡◌, refl, Bool, true, false, ◌||◌, Option, none, some, List, [], ◌∷◌, ◌++◌,
  any-append, arith, leb, Bool-cases, inl, inr, ◌∙◌, leb→le, leb→lt,
}
use alloyvnc.Base.Words.{I32}
use alloyvnc.Region.Spans.{Span, grow, close, union_loop, union_spans}
use alloyvnc.Region.Spans.Order.{covers, in_span, Apart, Rising, Apart-Rising}

-- The points of the span that is still open.
abbrev in_open : I32 → Option Span → Bool
in_open x none = false
in_open x (some s) = in_span x s

-- The open span starts no later than all that follows, above what was pushed.
abbrev IsOpen : I32 → I32 → Option Span → Type 0
IsOpen lo from none = lo ≤ from
IsOpen lo from (some s) = (lo ≤ s.0) × (s.0 < s.1) × (s.0 ≤ from)

-- The spans in the order in which the loop takes them.
merge_spans : List Span → List Span → List Span
merge_spans [] [] = []
merge_spans (x ∷ a) [] = x ∷ merge_spans a []
merge_spans [] (y ∷ b) = y ∷ merge_spans [] b
merge_spans (x ∷ a) (y ∷ b) = elim (leb x.0 y.0) [
  | true ↦ x ∷ merge_spans a (y ∷ b)
  | false ↦ y ∷ merge_spans (x ∷ a) b
]

sweep : Option Span → List Span → List Span
sweep cur [] = close cur
sweep cur (n ∷ l) = (grow cur n).0 ++ sweep (grow cur n).1 l

-- The loop takes the spans of both sides in that order.
union_loop-merge_spans :
    (cur : Option Span) (a b : List Span) → union_loop cur a b ≡ sweep cur (merge_spans a b)
unfolding union_loop merge_spans sweep
union_loop-merge_spans cur [] [] = refl
union_loop-merge_spans cur (x ∷ a) [] = rw (union_loop-merge_spans (grow cur x).1 a [])
union_loop-merge_spans cur [] (y ∷ b) = rw (union_loop-merge_spans (grow cur y).1 [] b)
union_loop-merge_spans cur (x ∷ a) (y ∷ b) = ground (
  arith,
  union_loop-merge_spans (grow cur x).1 a (y ∷ b),
  union_loop-merge_spans (grow cur y).1 (x ∷ a) b,
)

merge_spans-Rising :
    (lo : I32) (a b : List Span) → Rising lo a → Rising lo b → Rising lo (merge_spans a b)
unfolding merge_spans
merge_spans-Rising lo [] [] h k = tt
merge_spans-Rising lo (x ∷ a) [] h k = (h.0, h.1, merge_spans-Rising x.0 a [] h.2 tt)
merge_spans-Rising lo [] (y ∷ b) h k = (k.0, k.1, merge_spans-Rising y.0 [] b tt k.2)
merge_spans-Rising lo (x ∷ a) (y ∷ b) h k = elim (Bool-cases (leb x.0 y.0)) [
  | inl le ↦
      rw (le, merge_spans)
        (h.0, h.1, merge_spans-Rising x.0 a (y ∷ b) h.2 (leb→le x.0 y.0 le, k.1, k.2))
  | inr gt ↦
      let lt = leb→lt x.0 y.0 gt in
      rw (gt, merge_spans) (k.0, k.1, merge_spans-Rising y.0 (x ∷ a) b (omega arith, h.1, h.2) k.2)
]

module _ (x : I32) where
  covers-grow :
      (cur : Option Span) (n : Span) (lo from : I32)
      → IsOpen lo from cur
      → from ≤ n.0
      → n.0 < n.1
      → covers x (grow cur n).0 || in_open x (grow cur n).1 ≡ in_open x cur || in_span x n
  unfolding grow
  covers-grow none n lo from o f h = ground arith
  covers-grow (some c) n lo from o f h = ground arith

  covers-merge_spans : (a b : List Span) → covers x (merge_spans a b) ≡ covers x a || covers x b
  unfolding merge_spans
  covers-merge_spans [] [] = refl
  covers-merge_spans (s ∷ a) [] = ground (arith, covers-merge_spans a [])
  covers-merge_spans [] (t ∷ b) = ground (arith, covers-merge_spans [] b)
  covers-merge_spans (s ∷ a) (t ∷ b) =
      ground (arith, covers-merge_spans a (t ∷ b), covers-merge_spans (s ∷ a) b)

-- What is open after one more span.
grow-IsOpen :
    (cur : Option Span) (n : Span) (lo from : I32)
    → IsOpen lo from cur
    → from ≤ n.0
    → n.0 < n.1
    → (mid : I32) × IsOpen mid n.0 (grow cur n).1
      × ((l : List Span) → Apart mid l → Apart lo ((grow cur n).0 ++ l))
unfolding grow
grow-IsOpen none n lo from o h k = (lo, omega arith, λ l a. a)
grow-IsOpen (some (c1, c2)) n lo from o h k = elim (Bool-cases (leb n.0 c2)) [
  | inl le ↦ rw (le, grow) (lo, omega arith, λ l a. a)
  | inr gt ↦ let lt = leb→lt n.0 c2 gt in rw (gt, grow) (c2 + 1, omega arith, λ l a. (o.0, o.1, a))
]

sweep-Apart :
    (cur : Option Span) (l : List Span) (lo from : I32)
    → IsOpen lo from cur
    → Rising from l
    → Apart lo (sweep cur l)
unfolding sweep close
sweep-Apart none [] lo from o r = tt
sweep-Apart (some c) [] lo from o r = (o.0, o.1, tt)
sweep-Apart cur (n ∷ l) lo from o r =
    let (mid, o', keep) = grow-IsOpen cur n lo from o r.0 r.1 in
    keep (sweep (grow cur n).1 l) (sweep-Apart (grow cur n).1 l mid n.0 o' r.2)

covers-sweep :
    (x : I32) (cur : Option Span) (l : List Span) (lo from : I32)
    → IsOpen lo from cur
    → Rising from l
    → covers x (sweep cur l) ≡ in_open x cur || covers x l
unfolding sweep close
covers-sweep x none [] lo from o r = refl
covers-sweep x (some c) [] lo from o r = refl
covers-sweep x cur (n ∷ l) lo from o r =
    let (mid, o', keep) = grow-IsOpen cur n lo from o r.0 r.1 in
    rw
      (
        any-append (in_span x) (grow cur n).0 (sweep (grow cur n).1 l),
        covers-sweep x (grow cur n).1 l mid n.0 o' r.2,
      )
      (ground (arith, covers-grow x cur n lo from o r.0 r.1))

-- Of two lists of spans in normal form, the union holds the points of either, and is in normal
-- form itself.
pub union_spans_lem :
    (a b : List Span) (lo : I32)
    → Apart lo a
    → Apart lo b
    → ((x : I32) → covers x (union_spans a b) ≡ covers x a || covers x b)
      × Apart lo (union_spans a b)
unfolding union_spans
union_spans_lem a b lo h k =
    let r = merge_spans-Rising lo a b (Apart-Rising lo a h) (Apart-Rising lo b k) in
    rw (union_loop-merge_spans none a b) (
      λ x. covers-sweep x none (merge_spans a b) lo lo (omega arith) r ∙ covers-merge_spans x a b,
      sweep-Apart none (merge_spans a b) lo lo (omega arith) r,
    )
