-- ===== src/Region/Spans.antt =====
-- The one-dimensional set operations of crates/alloyvnc-region/src/lib.rs: `union_spans`,
-- `intersect_spans` and `subtract_spans`. An index into a slice is the list from there on, and
-- what a loop pushes is the list that it returns.
use alloyvnc.Base.{
  ℕ, ◌≤◌, min, max, Bool, true, false, ◌&&◌, Option, none, some, List, [], ◌∷◌, ◌++◌, any, ltb, leb,
  if◌then◌else◌,
}
use alloyvnc.Base.Words.{I32}
pub mod Order
pub mod Union
pub mod Intersect
pub mod Subtract

abbrev pub Span : Type 0
Span = I32 × I32

-- `match cur` of `union_spans`: what is pushed, and the new `cur`.
pub grow : Option Span → Span → List Span × Option Span
grow none (n1, n2) = ([], some (n1, n2))
grow (some (c1, c2)) (n1, n2) =
    if leb n1 c2 then ([], some (c1, max c2 n2)) else ((c1, c2) ∷ [], some (n1, n2))

-- `if let Some(c) = cur`
pub close : Option Span → List Span
close none = []
close (some c) = c ∷ []

pub union_loop : Option Span → List Span → List Span → List Span
unfolding grow close
union_loop cur [] [] = close cur
union_loop cur (x ∷ a) [] = (grow cur x).0 ++ union_loop (grow cur x).1 a []
union_loop cur [] (y ∷ b) = (grow cur y).0 ++ union_loop (grow cur y).1 [] b
union_loop cur (x ∷ a) (y ∷ b) = elim (leb x.0 y.0) [
  | true ↦ (grow cur x).0 ++ union_loop (grow cur x).1 a (y ∷ b)
  | false ↦ (grow cur y).0 ++ union_loop (grow cur y).1 (x ∷ a) b
]

unfoldable pub union_spans : List Span → List Span → List Span
unfolding union_loop
union_spans a b = union_loop none a b

-- `if x1 < x2 { out.push((x1, x2)) }`
abbrev pub push_span : I32 → I32 → List Span
push_span x1 x2 = if ltb x1 x2 then (x1, x2) ∷ [] else []

unfoldable pub intersect_spans : List Span → List Span → List Span
intersect_spans [] b = []
intersect_spans (x ∷ a) [] = []
intersect_spans (x ∷ a) (y ∷ b) =
    push_span (max x.0 y.0) (min x.1 y.1)
    ++ elim (ltb x.1 y.1) [ true ↦ intersect_spans a (y ∷ b) | false ↦ intersect_spans (x ∷ a) b ]

-- `while j < b.len() && b[j].1 <= cur { j += 1 }`
pub skip_spans : I32 → List Span → List Span
skip_spans cur [] = []
skip_spans cur (y ∷ b) = let rest = skip_spans cur b in if leb y.1 cur then rest else y ∷ b

-- The loop over `k`, and the last push of one span of `a`.
pub carve : I32 → I32 → List Span → List Span
carve cur ax2 [] = push_span cur ax2
carve cur ax2 (y ∷ b) =
    let pushed : List Span = push_span cur y.0 in
    let next : I32 = max cur y.1 in
    let rest : List Span = carve next ax2 b in
    if ltb y.0 ax2
    then pushed ++ (if leb ax2 next then push_span next ax2 else rest)
    else push_span cur ax2

unfoldable pub subtract_spans : List Span → List Span → List Span
unfolding skip_spans carve
subtract_spans [] b = []
subtract_spans ((ax1, ax2) ∷ a) b =
    carve ax1 ax2 (skip_spans ax1 b) ++ subtract_spans a (skip_spans ax1 b)
