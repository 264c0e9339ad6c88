-- ===== src/Encode/Hextile/Places.antt =====
-- What placing one run does to the pixels (`runs` of crates/alloyvnc-encode/src/hextile.rs).
use alloyvnc.Base.{
  ℕ, ◌+◌, ◌≡◌, ◌∙◌, inl, inr, Bool, true, not, ◌&&◌, ◌||◌, Bool-cases, Option, none, some, List, [],
  ◌∷◌, ◌++◌, any, all, any-append, all-append, arith, ltb, leb, ◌==◌, if◌then◌else◌,
}
use alloyvnc.Encode.Hextile.{Subrect, ends_above, grow, place}

-- A pixel of a subrectangle.
abbrev pub sub_holds : ℕ → ℕ → Subrect → Bool
sub_holds px py s = leb s.x px && (ltb px (s.x + s.w) && (leb s.y py && ltb py (s.y + s.h)))

-- Some subrectangle has the pixel.
abbrev pub inked : ℕ → ℕ → List Subrect → Bool
inked px py subs = any (sub_holds px py) subs

-- Every subrectangle that has the pixel is of this colour.
abbrev pub only_in : ℕ → ℕ → ℕ → List Subrect → Bool
only_in key px py subs = all (λ s. not (sub_holds px py s) || s.colour == key) subs

module _ (key px py : ℕ) where
  -- The pixel is in a run of row `y`.
  abbrev pub in_run : ℕ → ℕ → ℕ → Bool
  in_run x w y = leb x px && (ltb px (x + w) && py == y)

  -- What a run adds.
  pub record Adds (x w colour y : ℕ) (subs out : List Subrect) : Type 0 where
    pub ink : inked px py out ≡ inked px py subs || in_run x w y
    pub only :
        only_in key px py out ≡ only_in key px py subs && (not (in_run x w y) || colour == key)

  taller :
      (x w colour y : ℕ) (s : Subrect) (subs : List Subrect)
      → ends_above x w colour y s ≡ true
      → Adds x w colour y (s ∷ subs) (record s { h = s.h + 1 } ∷ subs)
  taller x w colour y s subs e = record { ink = ground (arith, e); only = ground (arith, e) }

  -- What a run adds to what has grown, if something has.
  abbrev Grows : ℕ → ℕ → ℕ → ℕ → List Subrect → Option (List Subrect) → Type 0
  Grows x w colour y subs none = Unit
  Grows x w colour y subs (some out) = Adds x w colour y subs out

  grow-later :
      (x w colour y : ℕ) (s : Subrect) (subs : List Subrect) (rest : Option (List Subrect))
      → Grows x w colour y subs rest
      → Grows x w colour y (s ∷ subs) (elim rest [
        | some later ↦ some (s ∷ later)
        | none ↦ if ends_above x w colour y s then some (record s { h = s.h + 1 } ∷ subs) else none
      ])
  grow-later x w colour y s subs (some later) a =
      let i = a.ink in
      let o = a.only in record { ink = ground (arith, i); only = ground (arith, o) }
  grow-later x w colour y s subs none a = elim (Bool-cases (ends_above x w colour y s)) [
    | inl hit ↦ rw hit (taller x w colour y s subs hit)
    | inr miss ↦ rw miss tt
  ]

  grow-Grows :
      (x w colour y : ℕ) (subs : List Subrect) → Grows x w colour y subs (grow x w colour y subs)
  unfolding grow
  grow-Grows x w colour y [] = tt
  grow-Grows x w colour y (s ∷ subs) =
      grow-later x w colour y s subs (grow x w colour y subs) (grow-Grows x w colour y subs)

  placed :
      (x w colour y : ℕ) (subs : List Subrect) (grown : Option (List Subrect))
      → Grows x w colour y subs grown
      → Adds x w colour y subs (elim grown [
        | some l ↦ l
        | none ↦ subs ++ record { x = x; y = y; w = w; h = 1; colour = colour } ∷ []
      ])
  placed x w colour y subs (some l) a = a
  placed x w colour y subs none a =
      let run : Subrect = record { x = x; y = y; w = w; h = 1; colour = colour } in
      let e = any-append (sub_holds px py) subs (run ∷ []) in
      let f = all-append (λ s. not (sub_holds px py s) || s.colour == key) subs (run ∷ []) in
      record { ink = e ∙ ground arith; only = f ∙ ground arith }

  pub place-Adds :
      (x w colour y : ℕ) (subs : List Subrect) → Adds x w colour y subs (place x w colour y subs)
  unfolding place
  place-Adds x w colour y subs =
      placed x w colour y subs (grow x w colour y subs) (grow-Grows x w colour y subs)
