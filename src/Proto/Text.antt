-- ===== src/Proto/Text.antt =====
-- A Rust `String` as the list of its characters' code points, its UTF-8 bytes (`as_bytes`), and the
-- standard library's `from_utf8_lossy`, byte by byte: each longest piece that begins no character
-- becomes one U+FFFD. With the Latin-1 conversions of crates/alloyvnc-proto/src/msg.rs.
pub mod Utf8
use alloyvnc.Base.{
  ℕ, zero, suc, ◌+◌, ◌-◌, ◌*◌, ◌/◌, ◌%◌, Bool, ◌&&◌, ◌||◌, List, [], ◌∷◌, ◌++◌, map, ltb, leb, ◌==◌,
  if◌then◌else◌,
}
use alloyvnc.Proto.Wire.{Bytes}

abbrev pub Text : Type 0
Text = List ℕ

unfoldable pub char_bytes : ℕ → Bytes
char_bytes c =
    if ltb c 0x80
    then c ∷ []
    else if ltb c 0x800
    then (0xc0 + c / 64) ∷ (0x80 + c % 64) ∷ []
    else if ltb c 0x10000
    then (0xe0 + c / 4096) ∷ (0x80 + c / 64 % 64) ∷ (0x80 + c % 64) ∷ []
    else (0xf0 + c / 262144) ∷ (0x80 + c / 4096 % 64) ∷ (0x80 + c / 64 % 64) ∷ (0x80 + c % 64) ∷ []

-- `as_bytes`
unfoldable pub as_bytes : Text → Bytes
unfolding char_bytes
as_bytes [] = []
as_bytes (c ∷ text) = char_bytes c ++ as_bytes text

-- What is still wanted of a character: so many bytes, the next between `lo` and `hi`, after the
-- bits `acc`.
pub data Pending : Type 0 where
  idle : Pending
  wanting : ℕ → ℕ → ℕ → ℕ → Pending

abbrev pub replacement : ℕ
replacement = 0xfffd

-- A byte that begins a character: what it gives, and what it wants.
unfoldable pub begin : ℕ → Text × Pending
begin b =
    if ltb b 0x80
    then (b ∷ [], idle)
    else if ltb b 0xc2
    then (replacement ∷ [], idle)
    else if ltb b 0xe0
    then ([], wanting 1 0x80 0xbf (b - 0xc0))
    else if b == 0xe0
    then ([], wanting 2 0xa0 0xbf 0)
    else if b == 0xed
    then ([], wanting 2 0x80 0x9f 0xd)
    else if ltb b 0xf0
    then ([], wanting 2 0x80 0xbf (b - 0xe0))
    else if b == 0xf0
    then ([], wanting 3 0x90 0xbf 0)
    else if ltb b 0xf4
    then ([], wanting 3 0x80 0xbf (b - 0xf0))
    else if b == 0xf4
    then ([], wanting 3 0x80 0x8f 4)
    else (replacement ∷ [], idle)

unfoldable pub next_byte : Pending → ℕ → Text × Pending
unfolding begin
next_byte idle b = begin b
next_byte (wanting n lo hi acc) b =
    if leb lo b && leb b hi
    then if n == 1
      then ((acc * 64 + (b - 0x80)) ∷ [], idle)
      else ([], wanting (n - 1) 0x80 0xbf (acc * 64 + (b - 0x80)))
    else (replacement ∷ (begin b).0, (begin b).1)

unfoldable pub decode_from : Pending → Bytes → Text
unfolding next_byte
decode_from idle [] = []
decode_from (wanting n lo hi acc) [] = replacement ∷ []
decode_from p (b ∷ bs) = (next_byte p b).0 ++ decode_from (next_byte p b).1 bs

unfoldable pub from_utf8_lossy : Bytes → Text
unfolding decode_from
from_utf8_lossy bs = decode_from idle bs

-- One byte per character, straight to a char.
unfoldable pub latin1_to_string : Bytes → Text
latin1_to_string raw = raw

-- `u8::try_from(u32::from(ch)).unwrap_or(b'?')`
unfoldable pub latin1_byte : ℕ → ℕ
latin1_byte ch = if ltb ch 256 then ch else b'?'

unfoldable pub string_to_latin1 : Text → Bytes
unfolding latin1_byte
string_to_latin1 text = map latin1_byte text

-- `replace("\r\n", "\n")`
unfoldable pub replace_crlf : Text → Text
replace_crlf [] = []
replace_crlf (c ∷ []) = c ∷ []
replace_crlf (c ∷ d ∷ text) =
    let pair = replace_crlf text in
    let single = replace_crlf (d ∷ text) in if c == 13 && d == 10 then 10 ∷ pair else c ∷ single
