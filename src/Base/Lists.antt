-- ===== src/Base/Lists.antt =====
-- Lists measured and indexed by native numbers, under the library's names.
use Prim.Native.Nat.{ℕ, zero, suc, ◌+◌, ◌-◌, ◌≤◌, ◌<◌}
use mathlib.Core.Path.{◌≡◌, refl, ap, ◌∙◌}
use mathlib.Core.Logic.{◌≢◌, ◌⊎◌, inl, inr}
use mathlib.Core.Bool.{Bool, true, false, ◌&&◌, ◌||◌}
use mathlib.Core.List.{List, [], ◌∷◌, ◌++◌}
use native.Mathlib.Omega.{arith}

module _ {ℓ} {A : Type ℓ} where
  abbrev pub length : List A → ℕ
  length [] = 0
  length (x ∷ xs) = suc (length xs)

  abbrev pub take : ℕ → List A → List A
  take zero xs = []
  take (suc n) [] = []
  take (suc n) (x ∷ xs) = x ∷ take n xs

  abbrev pub drop : ℕ → List A → List A
  drop zero xs = xs
  drop (suc n) [] = []
  drop (suc n) (x ∷ xs) = drop n xs

  -- A predicate that holds of every element.
  abbrev pub All {κ} : (A → Type κ) → List A → Type κ
  All P [] = Unit
  All P (x ∷ xs) = P x × All P xs

  -- `iter().any(p)`
  abbrev pub any : (A → Bool) → List A → Bool
  any p [] = false
  any p (x ∷ xs) = p x || any p xs

  -- `iter().all(p)`
  abbrev pub all : (A → Bool) → List A → Bool
  all p [] = true
  all p (x ∷ xs) = p x && all p xs

  pub length-append : (xs ys : List A) → length (xs ++ ys) ≡ length xs + length ys
  length-append [] ys = omega arith
  length-append (x ∷ xs) ys = omega (arith, length-append xs ys)

module _ {ℓ} {A : Type ℓ} where
  pub any-append : (p : A → Bool) (xs ys : List A) → any p (xs ++ ys) ≡ any p xs || any p ys
  any-append p [] ys = refl
  any-append p (x ∷ xs) ys = ground (arith, any-append p xs ys)

  pub all-append : (p : A → Bool) (xs ys : List A) → all p (xs ++ ys) ≡ all p xs && all p ys
  all-append p [] ys = refl
  all-append p (x ∷ xs) ys = ground (arith, all-append p xs ys)

  pub All-append {κ} : (P : A → Type κ) (xs ys : List A) → All P xs → All P ys → All P (xs ++ ys)
  All-append P [] ys h k = k
  All-append P (x ∷ xs) ys h k = (h.0, All-append P xs ys h.1 k)

  pub All-map {κ μ} :
      {P : A → Type κ} {Q : A → Type μ}
      → ((a : A) → P a → Q a)
      → (xs : List A) → All P xs
      → All Q xs
  All-map f [] h = tt
  All-map f (x ∷ xs) h = (f x h.0, All-map f xs h.1)

  pub length-take : (n : ℕ) (xs : List A) → n ≤ length xs → length (take n xs) ≡ n
  length-take zero xs h = refl
  length-take (suc n) [] h = absurd (omega arith)
  length-take (suc n) (x ∷ xs) h = ap suc (length-take n xs (omega arith))

  pub length-drop : (n : ℕ) (xs : List A) → length (drop n xs) ≡ length xs - n
  length-drop zero xs = omega arith
  length-drop (suc n) [] = omega arith
  length-drop (suc n) (x ∷ xs) = omega (arith, length-drop n xs)

  pub take-append-drop : (n : ℕ) (xs : List A) → take n xs ++ drop n xs ≡ xs
  take-append-drop zero xs = refl
  take-append-drop (suc n) [] = refl
  take-append-drop (suc n) (x ∷ xs) = ap (λ r. x ∷ r) (take-append-drop n xs)

  pub take-append : (xs ys : List A) → take (length xs) (xs ++ ys) ≡ xs
  take-append [] ys = refl
  take-append (x ∷ xs) ys = ap (λ r. x ∷ r) (take-append xs ys)

module _ {ℓ} {A : Type ℓ} where
  -- The element at an index, and `d` past the end.
  abbrev pub get_or : List A → ℕ → A → A
  get_or [] i d = d
  get_or (x ∷ xs) zero d = x
  get_or (x ∷ xs) (suc i) d = get_or xs i d

  -- `xs[i] = a`, which does nothing past the end.
  abbrev pub set_at : ℕ → A → List A → List A
  set_at i a [] = []
  set_at zero a (x ∷ xs) = a ∷ xs
  set_at (suc i) a (x ∷ xs) = x ∷ set_at i a xs

  abbrev pub replicate : ℕ → A → List A
  replicate zero a = []
  replicate (suc n) a = a ∷ replicate n a

  abbrev pub is_nil : List A → Bool
  is_nil [] = true
  is_nil (x ∷ xs) = false

  pub length-set_at : (i : ℕ) (a : A) (xs : List A) → length (set_at i a xs) ≡ length xs
  length-set_at i a [] = refl
  length-set_at zero a (x ∷ xs) = refl
  length-set_at (suc i) a (x ∷ xs) = ap suc (length-set_at i a xs)

  pub length-replicate : (n : ℕ) (a : A) → length (replicate n a) ≡ n
  length-replicate zero a = refl
  length-replicate (suc n) a = ap suc (length-replicate n a)

  pub get_or-set_at_same :
      (d : A) (i : ℕ) (a : A) (xs : List A) → i < length xs → get_or (set_at i a xs) i d ≡ a
  get_or-set_at_same d i a [] h = absurd (omega arith)
  get_or-set_at_same d zero a (x ∷ xs) h = refl
  get_or-set_at_same d (suc i) a (x ∷ xs) h = get_or-set_at_same d i a xs (omega arith)

  pub get_or-set_at_other :
      (d : A) (i j : ℕ) (a : A) (xs : List A) → i ≢ j → get_or (set_at i a xs) j d ≡ get_or xs j d
  get_or-set_at_other d i j a [] h = refl
  get_or-set_at_other d zero zero a (x ∷ xs) h = absurd (h refl)
  get_or-set_at_other d zero (suc j) a (x ∷ xs) h = refl
  get_or-set_at_other d (suc i) zero a (x ∷ xs) h = refl
  get_or-set_at_other d (suc i) (suc j) a (x ∷ xs) h =
      get_or-set_at_other d i j a xs (λ e. h (ap suc e))

  -- An element after a write: the one that was written, or what was there.
  pub set_at_cases :
      (d : A) (i j : ℕ) (a : A) (xs : List A)
      → ((i ≡ j) × (get_or (set_at i a xs) j d ≡ a)) ⊎ (get_or (set_at i a xs) j d ≡ get_or xs j d)
  set_at_cases d i j a [] = inr refl
  set_at_cases d zero zero a (x ∷ xs) = inl (refl, refl)
  set_at_cases d zero (suc j) a (x ∷ xs) = inr refl
  set_at_cases d (suc i) zero a (x ∷ xs) = inr refl
  set_at_cases d (suc i) (suc j) a (x ∷ xs) = elim (set_at_cases d i j a xs) [
    | inl (e, f) ↦ inl (ap suc e, f)
    | inr e ↦ inr e
  ]

  pub get_or-replicate : (a : A) (n i : ℕ) → get_or (replicate n a) i a ≡ a
  get_or-replicate a zero i = refl
  get_or-replicate a (suc n) zero = refl
  get_or-replicate a (suc n) (suc i) = get_or-replicate a n i

  -- An element of a slice.
  pub get_or-take :
      (d : A) (n : ℕ) (xs : List A) (i : ℕ) → i < n → get_or (take n xs) i d ≡ get_or xs i d
  get_or-take d zero xs i h = absurd (omega arith)
  get_or-take d (suc n) [] i h = refl
  get_or-take d (suc n) (x ∷ xs) zero h = refl
  get_or-take d (suc n) (x ∷ xs) (suc i) h = get_or-take d n xs i (omega arith)

  pub get_or-drop :
      (d : A) (n : ℕ) (xs : List A) (i : ℕ) → get_or (drop n xs) i d ≡ get_or xs (n + i) d
  get_or-drop d zero xs i = ap (λ k. get_or xs k d) (omega arith)
  get_or-drop d (suc n) [] i = refl
  get_or-drop d (suc n) (x ∷ xs) i = get_or-drop d n xs i ∙ ap (λ k. get_or (x ∷ xs) k d) e
    where
      e : suc (n + i) ≡ suc n + i
      e = omega arith

module _ {ℓ} {A : Type ℓ} where
  -- An element of the first of two lists, and of the second.
  pub get_or-append :
      (d : A) (xs ys : List A) (i : ℕ)
      → (i < length xs → get_or (xs ++ ys) i d ≡ get_or xs i d)
        × (get_or (xs ++ ys) (length xs + i) d ≡ get_or ys i d)
  get_or-append d [] ys i = (λ h. absurd (omega arith), ap (λ k. get_or ys k d) (omega arith))
  get_or-append d (x ∷ xs) ys zero =
      (λ h. refl, ap (λ k. get_or (x ∷ (xs ++ ys)) k d) e ∙ (get_or-append d xs ys zero).1)
    where
      e : suc (length xs) + 0 ≡ suc (length xs + 0)
      e = omega arith
  get_or-append d (x ∷ xs) ys (suc i) = (
    λ h. (get_or-append d xs ys i).0 (omega arith),
    ap (λ k. get_or (x ∷ (xs ++ ys)) k d) e ∙ (get_or-append d xs ys (suc i)).1,
  )
    where
      e : suc (length xs) + suc i ≡ suc (length xs + suc i)
      e = omega arith

  abbrev pub reverse : List A → List A
  reverse [] = []
  reverse (x ∷ xs) = reverse xs ++ x ∷ []

  pub All-reverse {κ} : (P : A → Type κ) (xs : List A) → All P xs → All P (reverse xs)
  All-reverse P [] h = tt
  All-reverse P (x ∷ xs) h = All-append P (reverse xs) (x ∷ []) (All-reverse P xs h.1) (h.0, tt)
