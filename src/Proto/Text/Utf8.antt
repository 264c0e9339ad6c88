-- ===== src/Proto/Text/Utf8.antt =====
-- `from_utf8_lossy` gives back every text from its UTF-8 bytes.
use alloyvnc.Base.{
  ℕ, suc, ◌&&◌, ◌+◌, ◌-◌, ◌*◌, ◌/◌, ◌%◌, ◌≤◌, ◌<◌, ◌≡◌, refl, ◌∙◌, ap, ◌⊎◌, inl, inr, true, false,
  Bool-cases, [], ◌∷◌, ◌++◌, All, ltb, leb, ◌==◌, arith, ltb→lt, ltb→le,
}
use alloyvnc.Proto.Wire.{Bytes}
use alloyvnc.Proto.Text.{
  Text, char_bytes, as_bytes, Pending, idle, wanting, begin, next_byte, decode_from,
  from_utf8_lossy,
}

-- A Unicode scalar value: no surrogate.
abbrev pub IsScalar : ℕ → Type 0
IsScalar c = (c < 0xd800) ⊎ ((0xe000 ≤ c) × (c < 0x110000))

decode_from-begin :
    (b : ℕ) (bs : Bytes) {p : Pending}
    → begin b ≡ ([], p)
    → decode_from idle (b ∷ bs) ≡ decode_from p bs
unfolding decode_from
decode_from-begin b bs e = rw (e, next_byte)

decode_from-ascii :
    (b : ℕ) (bs : Bytes) → ltb b 0x80 ≡ true → decode_from idle (b ∷ bs) ≡ b ∷ decode_from idle bs
unfolding decode_from
decode_from-ascii b bs e = rw (e, next_byte, begin)

last :
    (lo hi acc b : ℕ) (bs : Bytes)
    → lo ≤ b
    → b ≤ hi
    → decode_from (wanting 1 lo hi acc) (b ∷ bs) ≡ (acc * 64 + (b - 0x80)) ∷ decode_from idle bs
unfolding decode_from
last lo hi acc b bs h k =
    let inside : leb lo b && leb b hi ≡ true = ground arith in rw (inside, next_byte)

middle :
    (n lo hi acc b : ℕ) (bs : Bytes)
    → lo ≤ b
    → b ≤ hi
    → decode_from (wanting (suc (suc n)) lo hi acc) (b ∷ bs)
      ≡ decode_from (wanting (suc n) 0x80 0xbf (acc * 64 + (b - 0x80))) bs
unfolding decode_from
middle n lo hi acc b bs h k =
    let inside : leb lo b && leb b hi ≡ true = ground arith in
    let next : suc (suc n) - 1 ≡ suc n = omega arith in
    let not_last : (suc (suc n) == 1) ≡ false = ground arith in
    rw (inside, not_last, next, next_byte)

begin_two :
    (c : ℕ) → 0x80 ≤ c → c < 0x800 → begin (0xc0 + c / 64) ≡ ([], wanting 1 0x80 0xbf (c / 64))
unfolding begin
begin_two c h k = ground arith

-- The second byte keeps clear of longer forms, of surrogates and of what lies past the last
-- character.
begin_three :
    (c : ℕ)
    → 0x800 ≤ c
    → c < 0x10000
    → IsScalar c
    → (lo : ℕ) × (hi : ℕ) × (begin (0xe0 + c / 4096) ≡ ([], wanting 2 lo hi (c / 4096)))
      × (lo ≤ 0x80 + c / 64 % 64)
      × (0x80 + c / 64 % 64 ≤ hi)
unfolding begin
begin_three c h k s = elim (Bool-cases (ltb c 0x1000)) [
  | inl low ↦ (0xa0, 0xbf, ground arith, ground arith, ground arith)
  | inr high ↦ elim (Bool-cases (c / 4096 == 0xd)) [
    | inl d ↦ (0x80, 0x9f, ground arith, ground arith, ground arith)
    | inr other ↦ (0x80, 0xbf, ground arith, ground arith, ground arith)
  ]
]

begin_four :
    (c : ℕ)
    → 0x10000 ≤ c
    → c < 0x110000
    → (lo : ℕ) × (hi : ℕ) × (begin (0xf0 + c / 262144) ≡ ([], wanting 3 lo hi (c / 262144)))
      × (lo ≤ 0x80 + c / 4096 % 64)
      × (0x80 + c / 4096 % 64 ≤ hi)
unfolding begin
begin_four c h k = elim (Bool-cases (ltb c 0x40000)) [
  | inl low ↦ (0x90, 0xbf, ground arith, ground arith, ground arith)
  | inr high ↦ elim (Bool-cases (ltb c 0x100000)) [
    | inl mid ↦ (0x80, 0xbf, ground arith, ground arith, ground arith)
    | inr top ↦ (0x80, 0x8f, ground arith, ground arith, ground arith)
  ]
]

decode_from-char_bytes :
    (c : ℕ) (bs : Bytes)
    → IsScalar c
    → decode_from idle (char_bytes c ++ bs) ≡ c ∷ decode_from idle bs
unfolding char_bytes
decode_from-char_bytes c bs s = elim (Bool-cases (ltb c 0x80)) [
  | inl one ↦ rw (one, decode_from-ascii c bs one)
  | inr more ↦ elim (Bool-cases (ltb c 0x800)) [
    | inl two ↦
        let b = begin_two c (ltb→le _ _ more) (ltb→lt _ _ two) in
        let whole : c / 64 * 64 + (0x80 + c % 64 - 0x80) ≡ c = omega arith in
        rw (
          more,
          two,
          decode_from-begin (0xc0 + c / 64) ((0x80 + c % 64) ∷ bs) b,
          last 0x80 0xbf (c / 64) (0x80 + c % 64) bs (omega arith) (omega arith),
          whole,
        )
    | inr more' ↦ elim (Bool-cases (ltb c 0x10000)) [
      | inl three ↦
          let (lo, hi, b, l, u) = begin_three c (ltb→le _ _ more') (ltb→lt _ _ three) s in
          let whole : (c / 4096 * 64 + (0x80 + c / 64 % 64 - 0x80)) * 64 + (0x80 + c % 64 - 0x80)
              ≡ c =
            omega arith in
          rw (
            more,
            more',
            three,
            decode_from-begin (0xe0 + c / 4096) ((0x80 + c / 64 % 64) ∷ (0x80 + c % 64) ∷ bs) b,
            middle 0 lo hi (c / 4096) (0x80 + c / 64 % 64) ((0x80 + c % 64) ∷ bs) l u,
            last 0x80 0xbf (c / 4096 * 64 + (0x80 + c / 64 % 64 - 0x80)) (0x80 + c % 64) bs
                (omega arith) (omega arith),
            whole,
          )
      | inr four ↦
          let (lo, hi, b, l, u) =
            begin_four c (ltb→le _ _ four) (omega (arith, ltb→le c 0x10000 four)) in
          let whole : ((c / 262144 * 64 + (0x80 + c / 4096 % 64 - 0x80)) * 64
                    + (0x80 + c / 64 % 64 - 0x80))
                  * 64
                + (0x80 + c % 64 - 0x80)
              ≡ c =
            omega arith in
          rw (
            more,
            more',
            four,
            decode_from-begin (0xf0 + c / 262144)
                ((0x80 + c / 4096 % 64) ∷ (0x80 + c / 64 % 64) ∷ (0x80 + c % 64) ∷ bs) b,
            middle 1 lo hi (c / 262144) (0x80 + c / 4096 % 64)
                ((0x80 + c / 64 % 64) ∷ (0x80 + c % 64) ∷ bs) l u,
            middle 0 0x80 0xbf (c / 262144 * 64 + (0x80 + c / 4096 % 64 - 0x80))
                (0x80 + c / 64 % 64) ((0x80 + c % 64) ∷ bs) (omega arith) (omega arith),
            last 0x80 0xbf
                ((c / 262144 * 64 + (0x80 + c / 4096 % 64 - 0x80)) * 64
                  + (0x80 + c / 64 % 64 - 0x80))
                (0x80 + c % 64) bs (omega arith) (omega arith),
            whole,
          )
    ]
  ]
]

-- A text of Unicode scalar values is read back from its bytes unchanged.
pub from_utf8_lossy-as_bytes :
    (text : Text) → All IsScalar text → from_utf8_lossy (as_bytes text) ≡ text
unfolding from_utf8_lossy as_bytes
from_utf8_lossy-as_bytes [] h = refl
from_utf8_lossy-as_bytes (c ∷ text) h =
    decode_from-char_bytes c (as_bytes text) h.0
    ∙ ap (λ t. c ∷ t) (from_utf8_lossy-as_bytes text h.1)
