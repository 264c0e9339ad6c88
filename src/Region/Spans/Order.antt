-- ===== src/Region/Spans/Order.antt =====
-- Sorted lists of spans, and the points that they cover (crates/alloyvnc-region/src/lib.rs).
use alloyvnc.Base.{
  ◌+◌, ◌≤◌, ◌<◌, ◌≡◌, refl, Bool, false, ◌&&◌, ◌||◌, List, [], ◌∷◌, ◌++◌, any, Bool-cases, inl, inr,
  ltb→lt, arith, ltb, leb,
}
use alloyvnc.Base.Words.{I32}
use alloyvnc.Region.Spans.{Span, push_span}

abbrev pub in_span : I32 → Span → Bool
in_span x s = leb s.0 x && ltb x s.1

-- Some span holds the point.
abbrev pub covers : I32 → List Span → Bool
covers x = any (in_span x)

-- The normal form of a band's spans: not empty, in order, and separated by a pixel at least.
abbrev pub Apart : I32 → List Span → Type 0
Apart lo [] = Unit
Apart lo (s ∷ l) = (lo ≤ s.0) × (s.0 < s.1) × Apart (s.1 + 1) l

-- Not empty, and in the order of their starts.
abbrev pub Rising : I32 → List Span → Type 0
Rising lo [] = Unit
Rising lo (s ∷ l) = (lo ≤ s.0) × (s.0 < s.1) × Rising s.0 l

pub Apart-lower : (lo lo' : I32) (l : List Span) → lo' ≤ lo → Apart lo l → Apart lo' l
Apart-lower lo lo' [] h a = tt
Apart-lower lo lo' (s ∷ l) h a = (omega arith, a.1, a.2)

pub Rising-lower : (lo lo' : I32) (l : List Span) → lo' ≤ lo → Rising lo l → Rising lo' l
Rising-lower lo lo' [] h a = tt
Rising-lower lo lo' (s ∷ l) h a = (omega arith, a.1, a.2)

pub Apart-Rising : (lo : I32) (l : List Span) → Apart lo l → Rising lo l
Apart-Rising lo [] a = tt
Apart-Rising lo (s ∷ l) a =
    (a.0, a.1, Apart-Rising s.0 l (Apart-lower (s.1 + 1) s.0 l (omega arith) a.2))

-- Nothing lies below the first span.
pub covers_below : (x lo : I32) (l : List Span) → x < lo → Apart lo l → covers x l ≡ false
covers_below x lo [] h a = refl
covers_below x lo (s ∷ l) h a = ground (arith, covers_below x (s.1 + 1) l)

pub covers-push_span :
    (p x1 x2 : I32) (l : List Span)
    → covers p (push_span x1 x2 ++ l) ≡ leb x1 p && ltb p x2 || covers p l
covers-push_span p x1 x2 l = ground arith

pub push_span-Apart :
    (x1 x2 lo : I32) (l : List Span)
    → lo ≤ x1
    → Apart (x2 + 1) l
    → Apart lo l
    → Apart lo (push_span x1 x2 ++ l)
push_span-Apart x1 x2 lo l h a b = elim (Bool-cases (ltb x1 x2)) [
  | inl lt ↦ rw lt (h, ltb→lt x1 x2 lt, a)
  | inr ge ↦ rw ge b
]
