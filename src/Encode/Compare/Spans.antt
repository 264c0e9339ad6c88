-- ===== src/Encode/Compare/Spans.antt =====
-- The spans and rows that crates/alloyvnc-encode/src/compare.rs makes of columns that are on.
use alloyvnc.Base.{
  ℕ, zero, suc, ◌+◌, ◌-◌, ◌*◌, ◌/◌, ◌≤◌, ◌<◌, min, ◌≡◌, refl, ◌∙◌, ap, inl, inr, Bool, true, false,
  ◌&&◌, ◌||◌, Bool-cases, none, some, List, [], ◌∷◌, is_nil, arith, ltb, leb, ◌==◌,
}
use alloyvnc.Base.Words.{I32, i32, bias, u32_mod}
use alloyvnc.Region.Spans.{Span}
use alloyvnc.Region.Spans.Order.{covers, Apart}
use alloyvnc.Region.Bands.Rows.{Row}
use alloyvnc.Region.Bands.Rows.Laws.{InOrder, row_holds}
use alloyvnc.Encode.Compare.{spans_from, rows_from}

-- The columns from `c` on, up to `e`, that are on.
abbrev pub inside : (ℕ → Bool) → ℕ → ℕ → ℕ → I32 → Bool
inside on width e c x =
    leb (bias + c * 64) x
    && (ltb x (bias + e * 64) && (ltb x (bias + width) && on ((x - bias) / 64)))

module _ (on : ℕ → Bool) (width e : ℕ) (fits : e * 64 < width + 64) where
  pub spans_from-Apart :
      (n c lo : ℕ)
      → c + n ≡ e
      → (lo ≤ bias + c * 64 → Apart lo (spans_from on width n c none))
        × ((x1 : I32)
            → lo ≤ x1
            → x1 < bias + c * 64
            → x1 < bias + width
            → Apart lo (spans_from on width n c (some x1)))
  unfolding spans_from
  spans_from-Apart zero c lo h = (λ a. tt, λ x1 a b d. (a, ground arith, tt))
  spans_from-Apart (suc n) c lo h =
      let next = spans_from-Apart n (c + 1) lo (omega arith) in
      elim (Bool-cases (on c)) [
        | inl y ↦ rw y (
          λ a. next.1 (i32 (c * 64)) a (omega arith) (omega arith),
          λ x1 a b d. next.1 x1 a (omega arith) d,
        )
        | inr z ↦ rw z (
          λ a. next.0 (omega arith),
          λ x1 a b d. (
            a,
            ground arith,
            (spans_from-Apart n (c + 1) (min (i32 (c * 64)) (i32 width) + 1) (omega arith)).0
                (omega arith),
          ),
        )
      ]

  inside_next :
      (c : ℕ) (x : I32)
      → c < e
      → inside on width e c x
        ≡ (leb (bias + c * 64) x && (ltb x (bias + (c + 1) * 64) && (ltb x (bias + width) && on c)))
          || inside on width e (c + 1) x
  inside_next c x h = elim (Bool-cases ((x - bias) / 64 == c)) [
    | inl same ↦
        let q : (x - bias) / 64 ≡ c = ground arith in
        let s : on ((x - bias) / 64) ≡ on c = ap on q in ground (arith, s, q)
    | inr other ↦ ground (arith, other)
  ]

  pub covers-spans_from :
      (n c : ℕ) (x : I32)
      → c + n ≡ e
      → (covers x (spans_from on width n c none) ≡ inside on width e c x)
        × ((x1 : I32)
            → x1 < bias + c * 64
            → covers x (spans_from on width n c (some x1))
              ≡ (leb x1 x && (ltb x (bias + c * 64) && ltb x (bias + width)))
                || inside on width e c x)
  unfolding spans_from
  covers-spans_from zero c x h = (ground arith, λ x1 a. ground arith)
  covers-spans_from (suc n) c x h =
      let next = covers-spans_from n (c + 1) x (omega arith) in
      let i = inside_next c x (omega arith) in
      elim (Bool-cases (on c)) [
        | inl y ↦ rw y (
          next.1 (i32 (c * 64)) (omega arith) ∙ ground (arith, i, y),
          λ x1 a. next.1 x1 (omega arith) ∙ ground (arith, i, y),
        )
        | inr z ↦
            rw z (next.0 ∙ ground (arith, i, z), λ x1 a. let k = next.0 in ground (arith, i, z, k))
      ]

pub InOrder-lo : (lo lo' : I32) (rows : List Row) → lo' ≤ lo → InOrder lo rows → InOrder lo' rows
InOrder-lo lo lo' [] h o = tt
InOrder-lo lo lo' (row ∷ rows) h o = (omega (arith, h, o.0), o.1, o.2, o.3)

module _ (spans : I32 → List Span) where
  pub rows_from-InOrder :
      ((w : I32) → Apart 0 (spans w))
      → (n : ℕ) (y : I32) → y + n < u32_mod
      → InOrder y (rows_from spans n y)
  unfolding rows_from
  rows_from-InOrder a zero y h = tt
  rows_from-InOrder a (suc n) y h =
      let rest = rows_from-InOrder a n (y + 1) (omega arith) in
      elim (Bool-cases (is_nil (spans y))) [
        | inl e ↦ rw e (InOrder-lo (y + 1) y _ (omega arith) rest)
        | inr e ↦ rw e (omega arith, omega arith, a y, rest)
      ]

  covers-nil : (x w : I32) → is_nil (spans w) ≡ true → covers x (spans w) ≡ false
  covers-nil x w h = go (spans w) h
    where
      go : (l : List Span) → is_nil l ≡ true → covers x l ≡ false
      go [] e = refl
      go (s ∷ l) e = cc

  pub row_holds-rows_from :
      (x w : I32) (n : ℕ) (y : I32)
      → row_holds x w (rows_from spans n y) ≡ leb y w && (ltb w (y + n) && covers x (spans w))
  unfolding rows_from
  row_holds-rows_from x w zero y = ground arith
  row_holds-rows_from x w (suc n) y =
      let rest = row_holds-rows_from x w n (y + 1) in
      elim (Bool-cases (is_nil (spans y))) [
        | inl e ↦ elim (Bool-cases (y == w)) [
          | inl same ↦
              let q : y ≡ w = ground arith in
              let z : covers x (spans w) ≡ false = covers-nil x w (rw (← q) e) in
              rw e (rest ∙ ground (arith, z))
          | inr other ↦ rw e (rest ∙ ground (arith, other))
        ]
        | inr e ↦ elim (Bool-cases (y == w)) [
          | inl same ↦
              let q : y ≡ w = ground arith in
              let s : covers x (spans y) ≡ covers x (spans w) = ap (λ k. covers x (spans k)) q in
              rw e (ground (arith, rest, s, same))
          | inr other ↦ rw e (ground (arith, rest, other))
        ]
      ]
