-- ===== src/Proto/Cursor/Local.antt =====
-- A parser that looks at no byte behind those that it takes: more bytes at the end of the buffer
-- change neither a result nor an error, and the position counts the bytes taken.
use alloyvnc.Base.{
  ℕ, zero, suc, ◌+◌, ◌≡◌, refl, ◌∙◌, ◌⊎◌, inl, inr, Bool, true, false, none, some, [], ◌∷◌, ◌++◌,
  length, if◌then◌else◌, arith,
}
use alloyvnc.Proto.Error.{Error, Result, ok, err}
use alloyvnc.Proto.Wire.{Bytes, split_at}
use alloyvnc.Proto.Cursor.{
  Cursor, Outcome, done, more, fail, Parser, continue, ◌>>=◌, pure, raise, lift, refuse_if, take,
  skip, u8, u16, u32,
}

abbrev pub grown : Cursor → Bytes → Cursor
grown c ext = record { rest = c.rest ++ ext; pos = c.pos }

-- `q` is what the parser makes of the longer buffer, `o` what it makes of the shorter.
abbrev pub Keeps {ℓ} : {A : Type ℓ} → Bytes → Cursor → Outcome A → Outcome A → Type ℓ
Keeps ext c (done a d) q =
    (q ≡ done a (grown d ext)) × (d.pos + length d.rest ≡ c.pos + length c.rest)
Keeps ext c more q = Unit
Keeps ext c (fail e) q = q ≡ fail e

pub record Local {ℓ} {A : Type ℓ} (p : Parser A) : Type ℓ where
  pub at : (c : Cursor) (ext : Bytes) → Keeps ext c (p c) (p (grown c ext))

module _ {ℓ} {A : Type ℓ} where
  pub Local-pure : (a : A) → Local (pure a)
  Local-pure a = record { at = λ c ext. (refl, refl) }

  pub Local-raise : (e : Error) → Local (raise {A = A} e)
  Local-raise e = record { at = λ c ext. refl }

  pub Local-lift : (r : Result A) → Local (lift r)
  Local-lift (ok a) = record { at = λ c ext. (refl, refl) }
  Local-lift (err e) = record { at = λ c ext. refl }

  pub Local-if : (b : Bool) (p q : Parser A) → Local p → Local q → Local (if b then p else q)
  Local-if true p q hp hq = hp
  Local-if false p q hp hq = hq

pub Local-refuse_if : (b : Bool) (e : Error) → Local (refuse_if b e)
Local-refuse_if true e = record { at = λ c ext. refl }
Local-refuse_if false e = record { at = λ c ext. (refl, refl) }

-- From a later position back to an earlier one.
Keeps-back {ℓ} :
    {A : Type ℓ} (ext : Bytes) (c d : Cursor) (o q : Outcome A)
    → d.pos + length d.rest ≡ c.pos + length c.rest
    → Keeps ext d o q
    → Keeps ext c o q
Keeps-back ext c d (done a e) q h k = (k.0, k.1 ∙ h)
Keeps-back ext c d more q h k = tt
Keeps-back ext c d (fail e) q h k = k

-- One part after another.
Keeps-continue {ℓ κ} :
    {A : Type ℓ} {B : Type κ} (ext : Bytes) (c : Cursor) (f : A → Parser B) (o q : Outcome A)
    → ((a : A) → Local (f a))
    → Keeps ext c o q
    → Keeps ext c (continue o f) (continue q f)
Keeps-continue ext c f (done a d) q lf k =
    rw (k.0) (Keeps-back ext c d (f a d) (f a (grown d ext)) k.1 ((lf a).at d ext))
Keeps-continue ext c f more q lf k = tt
Keeps-continue ext c f (fail e) q lf k = rw k refl

pub Local-bind {ℓ κ} :
    {A : Type ℓ} {B : Type κ} (p : Parser A) (f : A → Parser B)
    → Local p
    → ((a : A) → Local (f a))
    → Local (p >>= f)
Local-bind p f lp lf = record {
  at = λ c ext. Keeps-continue ext c f (p c) (p (grown c ext)) lf (lp.at c ext);
}

split_at_longer :
    (n : ℕ) (bs ext : Bytes)
    → (split_at n bs ≡ none)
      ⊎ ((s : Bytes × Bytes) × (split_at n bs ≡ some s)
          × (split_at n (bs ++ ext) ≡ some (s.0, s.1 ++ ext))
          × (n + length s.1 ≡ length bs))
split_at_longer zero bs ext = inr (([], bs), refl, refl, omega arith)
split_at_longer (suc n) [] ext = inl refl
split_at_longer (suc n) (b ∷ bs) ext = elim (split_at_longer n bs ext) [
  | inl e ↦ inl (rw e)
  | inr (s, e, f, k) ↦ inr ((b ∷ s.0, s.1), rw e, rw f, omega (arith, k))
]

pub Local-take : (n : ℕ) → Local (take n)
unfolding take
Local-take n = record {
  at = λ c ext. elim (split_at_longer n c.rest ext) [
    | inl e ↦ rw e tt
    | inr (s, e, f, k) ↦ rw (e, f) (refl, omega (arith, k))
  ];
}

pub Local-skip : (n : ℕ) → Local (skip n)
unfolding skip
Local-skip n = Local-bind (take n) _ (Local-take n) (λ s. Local-pure tt)

pub Local-u8 : Local u8
unfolding u8
Local-u8 = Local-bind (take 1) _ (Local-take 1) (λ s. Local-pure _)

pub Local-u16 : Local u16
unfolding u16
Local-u16 = Local-bind (take 2) _ (Local-take 2) (λ s. Local-pure _)

pub Local-u32 : Local u32
unfolding u32
Local-u32 = Local-bind (take 4) _ (Local-take 4) (λ s. Local-pure _)

pub ruleset local_rules = (
  Local-pure, Local-raise, Local-lift, Local-if, Local-refuse_if, Local-bind, Local-take,
  Local-skip, Local-u8, Local-u16, Local-u32,
)
