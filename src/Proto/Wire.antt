-- ===== src/Proto/Wire.antt =====
-- Big-endian numbers in lists of bytes (`to_be_bytes` and `from_be_bytes`), and the byte slices that
-- the parsers of crates/alloyvnc-proto take.
use alloyvnc.Base.{
  ℕ, zero, suc, ◌+◌, ◌*◌, ◌/◌, ◌%◌, ◌^◌, ◌<◌, ◌≡◌, refl, Option, none, some, List, [], ◌∷◌, ◌++◌,
  Bool, true, false, not, length, arith, ◌==◌,
}

abbrev pub Bytes : Type 0
Bytes = List ℕ

abbrev pub IsByte : ℕ → Type 0
IsByte b = b < 256

abbrev pub be16 : ℕ → Bytes
be16 v = v / 256 % 256 ∷ v % 256 ∷ []

abbrev pub be32 : ℕ → Bytes
be32 v = v / 2 ^ 24 % 256 ∷ v / 2 ^ 16 % 256 ∷ v / 2 ^ 8 % 256 ∷ v % 256 ∷ []

-- `from_be_bytes`
abbrev pub of_be16 : ℕ → ℕ → ℕ
of_be16 a b = a * 256 + b

abbrev pub of_be32 : ℕ → ℕ → ℕ → ℕ → ℕ
of_be32 a b c d = ((a * 256 + b) * 256 + c) * 256 + d

-- `u8::from(b)`
abbrev pub of_bool : Bool → ℕ
of_bool true = 1
of_bool false = 0

-- `b != 0`
abbrev pub to_bool : ℕ → Bool
to_bool b = not (b == 0)

-- `buf[i]`, where the caller has checked that it is there.
abbrev pub byte_at : Bytes → ℕ → ℕ
byte_at [] i = 0
byte_at (b ∷ bs) zero = b
byte_at (b ∷ bs) (suc i) = byte_at bs i

-- The first `n` bytes and the rest, if there are as many.
abbrev pub split_at : ℕ → Bytes → Option (Bytes × Bytes)
split_at zero bs = some ([], bs)
split_at (suc n) [] = none
split_at (suc n) (b ∷ bs) = elim (split_at n bs) [
  | none ↦ none
  | some (front, rest) ↦ some (b ∷ front, rest)
]

pub be16_lem : (v : ℕ) → v < 2 ^ 16 → of_be16 (v / 256 % 256) (v % 256) ≡ v
be16_lem v h = omega arith

pub be32_lem :
    (v : ℕ)
    → v < 2 ^ 32
    → of_be32 (v / 2 ^ 24 % 256) (v / 2 ^ 16 % 256) (v / 2 ^ 8 % 256) (v % 256) ≡ v
be32_lem v h = omega arith

pub split_at-append :
    (front rest : Bytes) → split_at (length front) (front ++ rest) ≡ some (front, rest)
split_at-append [] rest = refl
split_at-append (b ∷ front) rest = rw (split_at-append front rest)
