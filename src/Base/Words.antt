-- ===== src/Base/Words.antt =====
-- Machine integers. An unsigned word is its value, with its wrap-around written out. An `i32` is
-- kept as its value plus 2 ^ 31, a number below 2 ^ 32: then the order, minimum and maximum of
-- two `i32` are those of the two numbers, and `omega` reads them.
use alloyvnc.Base.{ℕ, ◌+◌, ◌-◌, ◌%◌, ◌^◌, ◌<◌, ◌≡◌, arith}

abbrev pub u64_mod : ℕ
u64_mod = 2 ^ 64

abbrev pub u32_mod : ℕ
u32_mod = 2 ^ 32

abbrev pub u16_mod : ℕ
u16_mod = 2 ^ 16

abbrev pub u8_mod : ℕ
u8_mod = 2 ^ 8

-- `+` on `u64`, which wraps in a release build.
abbrev pub add64 : ℕ → ℕ → ℕ
add64 a b = (a + b) % u64_mod

abbrev pub I32 : Type 0
I32 = ℕ

-- The `i32` zero.
abbrev pub bias : ℕ
bias = 2 ^ 31

-- The `i32` of a number below 2 ^ 31, and of its negative.
abbrev pub i32 : ℕ → I32
i32 n = bias + n

abbrev pub neg32 : ℕ → I32
neg32 n = bias - n

-- `+` and `-` on `i32`, which wrap in a release build.
abbrev pub add_i32 : I32 → I32 → I32
add_i32 a b = (a + b + bias) % u32_mod

abbrev pub sub_i32 : I32 → I32 → I32
sub_i32 a b = (a + u32_mod + bias - b) % u32_mod

-- The bit pattern of an `i32` as a `u32`, and back.
abbrev pub bits_i32 : I32 → ℕ
bits_i32 c = (c + bias) % u32_mod

pub bits_i32-bits_i32 : (c : I32) → c < u32_mod → bits_i32 (bits_i32 c) ≡ c
bits_i32-bits_i32 c h = omega arith

pub sub_i32-add_i32 : (a b : I32) → a < u32_mod → b < u32_mod → sub_i32 (add_i32 a b) b ≡ a
sub_i32-add_i32 a b h k = omega arith
