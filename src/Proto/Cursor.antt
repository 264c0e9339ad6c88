-- ===== src/Proto/Cursor.antt =====
-- `Cursor` of crates/alloyvnc-proto/src/msg.rs, and the way out of `parse_client` when bytes are
-- missing (the macro `need!`). A cursor holds the bytes from its position on (`buf[pos..]`) beside
-- the position.
pub mod Local
use alloyvnc.Base.{
  ℕ, ◌+◌, Bool, true, false, Option, none, some, List, [], ◌∷◌, length, if◌then◌else◌,
}
use alloyvnc.Proto.Error.{Error, Result, ok, err}
use alloyvnc.Proto.Wire.{Bytes, split_at, byte_at, of_be16, of_be32}

pub record Cursor : Type 0 where
  pub rest : Bytes
  pub pos : ℕ

pub data Outcome {ℓ} (A : Type ℓ) : Type ℓ where
  done : A → Cursor → Outcome A
  -- `return Ok(None)`
  more : Outcome A
  -- `return Err(e)`
  fail : Error → Outcome A

abbrev pub Parser {ℓ} : Type ℓ → Type ℓ
Parser A = Cursor → Outcome A

abbrev pub continue {ℓ κ} :
    {A : Type ℓ} {B : Type κ} → Outcome A → (A → Cursor → Outcome B) → Outcome B
continue (done a c) f = f a c
continue more f = more
continue (fail e) f = fail e

infixl 5 ◌>>=◌ ◌>>◌
abbrev pub ◌>>=◌ {ℓ κ} : {A : Type ℓ} {B : Type κ} → Parser A → (A → Parser B) → Parser B
◌>>=◌ p f c = continue (p c) f

abbrev pub ◌>>◌ {ℓ} : {B : Type ℓ} → Parser (Unit {0}) → Parser B → Parser B
p >> q = p >>= λ _. q

abbrev pub pure {ℓ} : {A : Type ℓ} → A → Parser A
pure a c = done a c

abbrev pub raise {ℓ} : {A : Type ℓ} → Error → Parser A
raise e c = fail e

-- `?` on a result
abbrev pub lift {ℓ} : {A : Type ℓ} → Result A → Parser A
lift (ok a) c = done a c
lift (err e) c = fail e

-- `if bad { return Err(e) }`
abbrev pub refuse_if : Bool → Error → Parser (Unit {0})
refuse_if true e c = fail e
refuse_if false e c = done tt c

abbrev pub new : Bytes → Cursor
new buf = record { rest = buf; pos = 0 }

abbrev pub taken : ℕ → ℕ → Option (Bytes × Bytes) → Outcome Bytes
taken n pos none = more
taken n pos (some (front, rest)) = done front (record { rest = rest; pos = pos + n })

unfoldable pub take : ℕ → Parser Bytes
take n c = taken n c.pos (split_at n c.rest)

unfoldable pub skip : ℕ → Parser (Unit {0})
unfolding take
skip n = do s ← take n; pure tt

unfoldable pub u8 : Parser ℕ
unfolding take
u8 = do s ← take 1; pure (byte_at s 0)

unfoldable pub u16 : Parser ℕ
unfolding take
u16 = do s ← take 2; pure (of_be16 (byte_at s 0) (byte_at s 1))

unfoldable pub u32 : Parser ℕ
unfolding take
u32 = do s ← take 4; pure (of_be32 (byte_at s 0) (byte_at s 1) (byte_at s 2) (byte_at s 3))
