-- ===== src/Encode/Hextile/Runs.antt =====
-- The runs of crates/alloyvnc-encode/src/hextile.rs as sets of pixels.
use mathlib.Core.Path.{subst}
use native.Mathlib.Nat.{suc-mul}
use alloyvnc.Base.{
  ℕ, zero, suc, ◌+◌, ◌-◌, ◌*◌, ◌≤◌, ◌<◌, ◌≡◌, refl, ◌∙◌, ap, inl, inr, Bool, true, false, not, ◌&&◌,
  ◌||◌, Bool-cases, Option, none, some, List, [], ◌∷◌, take, drop, length, length-take, length-drop,
  get_or, get_or-take, get_or-drop, arith, ltb, leb, ◌==◌, if◌then◌else◌,
}
use alloyvnc.Encode.Hextile.{Hextile, Subrect, place, row_runs, rows_runs, runs}
use alloyvnc.Encode.Hextile.Places.{inked, only_in, Adds, place-Adds}

module _ (key px py : ℕ) where
  -- The pixel is one of these of its row that are not background, and those at its place are of
  -- its colour or background.
  abbrev in_row : ℕ → ℕ → List ℕ → Bool
  in_row bg x [] = false
  in_row bg x (k ∷ row) = (px == x && not (k == bg)) || in_row bg (x + 1) row

  abbrev row_is : ℕ → ℕ → List ℕ → Bool
  row_is bg x [] = true
  row_is bg x (k ∷ row) = (not (px == x) || (k == bg || k == key)) && row_is bg (x + 1) row

  -- An open run that began before `x`, of a colour that is not background.
  abbrev Open : ℕ → ℕ → Option (ℕ × ℕ) → Type 0
  Open bg x none = Unit
  Open bg x (some (start, colour)) = (start ≤ x) × ((colour == bg) ≡ false)

  abbrev open_has : ℕ → Option (ℕ × ℕ) → Bool
  open_has x none = false
  open_has x (some (start, colour)) = leb start px && ltb px x

  abbrev open_is : ℕ → Option (ℕ × ℕ) → Bool
  open_is x none = true
  open_is x (some (start, colour)) = not (leb start px && ltb px x) || colour == key

  -- What the rest of a row does to the pixel.
  record Row (bg y x : ℕ) (run : Option (ℕ × ℕ)) (row : List ℕ) (subs out : List Subrect)
      : Type 0 where
    ink : inked px py out ≡ inked px py subs || (py == y && (open_has x run || in_row bg x row))
    only :
        only_in key px py out
        ≡ only_in key px py subs && (not (py == y) || (open_is x run && row_is bg x row))

  -- A pixel that is not background begins a run, and another begins none.
  begin_lem :
      (bg y x k : ℕ) (row : List ℕ) (subs out : List Subrect)
      → Row bg y (x + 1) (if k == bg then none else some (x, k)) row subs out
      → Row bg y x none (k ∷ row) subs out
  begin_lem bg y x k row subs out = elim (Bool-cases (k == bg)) [
    | inl back ↦ rw back (λ r.
        let i = r.ink in
        let o = r.only in
        record { ink = i ∙ ground (arith, back); only = o ∙ ground (arith, back) })
    | inr ink ↦ rw ink (λ r.
        let i = r.ink in
        let o = r.only in record { ink = i ∙ ground (arith, ink); only = o ∙ ground (arith, ink) })
  ]

  -- A run that ends.
  end_lem :
      (bg y x start colour k : ℕ) (row : List ℕ) (subs placed out : List Subrect)
      → start ≤ x
      → (k == colour) ≡ false
      → Adds key px py start (x - start) colour y subs placed
      → Row bg y x none (k ∷ row) placed out
      → Row bg y x (some (start, colour)) (k ∷ row) subs out
  end_lem bg y x start colour k row subs placed out h d a r =
      let i = a.ink in
      let u = a.only in
      let j = r.ink in
      let v = r.only in record { ink = j ∙ ground (arith, i, h); only = v ∙ ground (arith, u, h) }

  begins : (bg x k : ℕ) → Open bg (x + 1) (if k == bg then none else some (x, k))
  begins bg x k = elim (Bool-cases (k == bg)) [
    | inl back ↦ rw back tt
    | inr ink ↦ rw ink (omega arith, ink)
  ]

  -- A pixel after a run: of its colour, or the end of it.
  goes_on :
      (bg y x start colour k : ℕ) (row : List ℕ) (subs cut out : List Subrect)
      → start ≤ x
      → (colour == bg) ≡ false
      → Adds key px py start (x - start) colour y subs cut
      → Row bg y
          (x + 1)
          (if k == colour then some (start, colour) else if k == bg then none else some (x, k))
          row
          (if k == colour then subs else cut)
          out
      → Row bg y x (some (start, colour)) (k ∷ row) subs out
  goes_on bg y x start colour k row subs cut out h d a = elim (Bool-cases (k == colour)) [
    | inl same ↦ rw same (λ r.
        let i = r.ink in
        let u = r.only in
        record { ink = i ∙ ground (arith, h, d, same); only = u ∙ ground (arith, h, d, same) })
    | inr other ↦ rw other (λ r.
        end_lem bg y x start colour k row subs cut out h other a (begin_lem bg y x k row cut out r))
  ]

  stays_Open :
      (bg x start colour k : ℕ)
      → start ≤ x
      → (colour == bg) ≡ false
      → Open bg
          (x + 1)
          (if k == colour then some (start, colour) else if k == bg then none else some (x, k))
  stays_Open bg x start colour k h d = elim (Bool-cases (k == colour)) [
    | inl same ↦ rw same (omega (arith, h), d)
    | inr other ↦ rw other (begins bg x k)
  ]

  row_runs-Row :
      (bg y x : ℕ) (run : Option (ℕ × ℕ)) (row : List ℕ) (subs : List Subrect)
      → Open bg x run
      → Row bg y x run row subs (row_runs bg y x run row subs)
  unfolding row_runs
  row_runs-Row bg y x none [] subs o = record { ink = ground arith; only = ground arith }
  row_runs-Row bg y x (some (start, colour)) [] subs o =
      let a = place-Adds key px py start (x - start) colour y subs in
      let i = a.ink in
      let u = a.only in
      let h = o.0 in record { ink = i ∙ ground (arith, h); only = u ∙ ground (arith, h) }
  row_runs-Row bg y x none (k ∷ row) subs o =
      begin_lem bg y x k row subs _
        (row_runs-Row bg y (x + 1) (if k == bg then none else some (x, k)) row subs (begins bg x k))
  row_runs-Row bg y x (some (start, colour)) (k ∷ row) subs o =
      let cut : List Subrect = place start (x - start) colour y subs in
      goes_on bg y x start colour k row subs cut _ o.0 o.1
        (place-Adds key px py start (x - start) colour y subs)
        (row_runs-Row bg y (x + 1)
          (if k == colour then some (start, colour) else if k == bg then none else some (x, k)) row
          (if k == colour then subs else cut) (stays_Open bg x start colour k o.0 o.1))

  fold_ink :
      (y n : ℕ) (s c d : Bool)
      → (py == y ≡ true → c ≡ d)
      → (s || (py == y && (false || c))) || (leb (y + 1) py && (ltb py (y + 1 + n) && d))
        ≡ s || (leb y py && (ltb py (y + suc n) && d))
  fold_ink y n s c d e = elim (Bool-cases (py == y)) [
    | inl same ↦ let f = e same in ground (arith, f, same)
    | inr other ↦ ground (arith, other)
  ]

  fold_only :
      (y n : ℕ) (s c d : Bool)
      → (py == y ≡ true → c ≡ d)
      → (s && (not (py == y) || (true && c))) && (not (leb (y + 1) py && ltb py (y + 1 + n)) || d)
        ≡ s && (not (leb y py && ltb py (y + suc n)) || d)
  fold_only y n s c d e = elim (Bool-cases (py == y)) [
    | inl same ↦ let f = e same in ground (arith, f, same)
    | inr other ↦ ground (arith, other)
  ]

  -- What the rows from `y` on do to the pixel, given its row.
  rows_runs_lem :
      (bg width n y : ℕ) (keys : List ℕ) (subs : List Subrect)
      → let out = rows_runs bg width n y keys subs in
        let row : List ℕ = take width (drop (py * width) keys) in
        (inked px py out ≡ inked px py subs || (leb y py && (ltb py (y + n) && in_row bg 0 row)))
        × (only_in key px py out
            ≡ only_in key px py subs && (not (leb y py && ltb py (y + n)) || row_is bg 0 row))
  unfolding rows_runs
  rows_runs_lem bg width zero y keys subs = (ground arith, ground arith)
  rows_runs_lem bg width (suc n) y keys subs =
      let this : List ℕ = take width (drop (y * width) keys) in
      let row : List ℕ = take width (drop (py * width) keys) in
      let r = row_runs-Row bg y 0 none this subs tt in
      let rest = rows_runs_lem bg width n (y + 1) keys (row_runs bg y 0 none this subs) in
      let at : py == y ≡ true → this ≡ row =
        λ e. let q : y ≡ py = ground (arith, e) in ap (λ k. take width (drop (k * width) keys)) q in
      (
        rest.0
            ∙ (ap (λ b. b || (leb (y + 1) py && (ltb py (y + 1 + n) && in_row bg 0 row))) r.ink
                ∙ fold_ink y n (inked px py subs) (in_row bg 0 this) (in_row bg 0 row)
                    (λ e. ap (in_row bg 0) (at e))),
        rest.1
            ∙ (ap (λ b. b && (not (leb (y + 1) py && ltb py (y + 1 + n)) || row_is bg 0 row)) r.only
                ∙ fold_only y n (only_in key px py subs) (row_is bg 0 this) (row_is bg 0 row)
                    (λ e. ap (row_is bg 0) (at e))),
      )

  past_row :
      (bg x : ℕ) (row : List ℕ) → px < x → (in_row bg x row ≡ false) × (row_is bg x row ≡ true)
  past_row bg x [] h = (refl, refl)
  past_row bg x (k ∷ row) h =
      let rest = past_row bg (x + 1) row (omega (arith, h)) in
      let a = rest.0 in let b = rest.1 in (ground (arith, h, a), ground (arith, h, b))

-- The pixel in its row.
in_row_lem :
    (py bg x i px : ℕ) (row : List ℕ)
    → px ≡ x + i
    → i < length row
    → let key = get_or row i bg in
      (in_row key px py bg x row ≡ not (key == bg)) × (row_is key px py bg x row ≡ true)
in_row_lem py bg x i px [] e h = absurd (omega (arith, h))
in_row_lem py bg x zero px (k ∷ row) e h =
    let rest = past_row k px py bg (x + 1) row (omega (arith, e)) in
    let a = rest.0 in let b = rest.1 in (ground (arith, e, a), ground (arith, e, b))
in_row_lem py bg x (suc i) px (k ∷ row) e h =
    let rest = in_row_lem py bg (x + 1) i px row (omega (arith, e)) (omega (arith, h)) in
    let a = rest.0 in let b = rest.1 in (ground (arith, e, a), ground (arith, e, b))

-- The subrectangles of a tile, as far as its pixels go: a pixel is in one exactly if it is not of
-- the background colour, and each that it is in has its colour.
pub runs_lem :
    (bg x y : ℕ) (h : Hextile)
    → x < h.width
    → y < h.height
    → (y + 1) * h.width ≤ length h.keys
    → let key = get_or h.keys (y * h.width + x) bg in
      (inked x y (runs bg h).subrects ≡ not (key == bg))
      × (only_in key x y (runs bg h).subrects ≡ true)
unfolding runs
runs_lem bg x y h inside below whole =
    let line : List ℕ = drop (y * h.width) h.keys in
    let row : List ℕ = take h.width line in
    let key : ℕ = get_or h.keys (y * h.width + x) bg in
    let step : suc y * h.width ≡ y * h.width + h.width = suc-mul y h.width in
    let left = length-drop (y * h.width) h.keys in
    let size = length-take h.width line (omega (arith, step, left, whole)) in
    let at : get_or row x bg ≡ key =
      get_or-take bg h.width line x inside ∙ get_or-drop bg (y * h.width) h.keys x in
    let all_rows = rows_runs_lem key x y bg h.width h.height 0 h.keys [] in
    let r = in_row_lem y bg 0 x x row (omega arith) (omega (arith, size, inside)) in
    let (p, q) =
      subst (λ k. (in_row k x y bg 0 row ≡ not (k == bg)) × (row_is k x y bg 0 row ≡ true)) at r in
    (all_rows.0 ∙ ground (arith, below, p), all_rows.1 ∙ ground (arith, q))
