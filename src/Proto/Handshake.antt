-- ===== src/Proto/Handshake.antt =====
-- crates/alloyvnc-proto/src/handshake.rs: the protocol version, the security types and their
-- result, and ServerInit.
pub mod Laws
mod Tests
use Prim.Native.String.{String}
use alloyvnc.Base.{
  ℕ, zero, suc, ◌+◌, ◌-◌, ◌*◌, ◌%◌, Bool, true, false, not, ◌&&◌, ◌||◌, Option, none, some, List,
  [], ◌∷◌, ◌++◌, length, take, drop, all, min, ltb, leb, ◌==◌, if◌then◌else◌,
}
use alloyvnc.Base.Words.{u16_mod, u32_mod}
use alloyvnc.Proto.Error.{
  Error, bad_version, unsupported_version, too_long, Result, ok, err, ◌>>=◌, ◌>>◌, refuse,
}
use alloyvnc.Proto.Wire.{Bytes, be16, be32, byte_at, of_be16, of_be32}
use alloyvnc.Proto.Text.{Text, as_bytes, from_utf8_lossy}
use alloyvnc.Proto.PixelFormat
use alloyvnc.Proto.PixelFormat.{PixelFormat}

abbrev pub version_len : ℕ
version_len = 12

abbrev pub security_none : ℕ
security_none = 1

abbrev pub security_vnc_auth : ℕ
security_vnc_auth = 2

pub data Flow : Type 0 where
  v33 v37 v38 : Flow

unfoldable pub for_version : ℕ → ℕ → Result Flow
for_version major minor =
    if not (major == 3)
    then err (unsupported_version major minor)
    else if leb minor 2
    then err (unsupported_version major minor)
    else if leb minor 6
    then ok v33
    else if minor == 7
    then ok v37
    else ok v38

-- `RFB 003.00x\n`
abbrev pub version_text : ℕ → Bytes
version_text d = b'R' ∷ b'F' ∷ b'B' ∷ b' ' ∷ b'0' ∷ b'0' ∷ b'3' ∷ b'.' ∷ b'0' ∷ b'0' ∷ d ∷ 10 ∷ []

unfoldable pub version_bytes : Flow → Bytes
version_bytes v33 = version_text b'3'
version_bytes v37 = version_text b'7'
version_bytes v38 = version_text b'8'

unfoldable pub eq_bytes : Bytes → Bytes → Bool
eq_bytes [] [] = true
eq_bytes (a ∷ as') (b ∷ bs) = a == b && eq_bytes as' bs
eq_bytes _ _ = false

-- `fold` over ascii digits, in a `u16`.
unfoldable pub fold_digits : ℕ → Bytes → ℕ
fold_digits acc [] = acc
fold_digits acc (d ∷ ds) = fold_digits ((acc * 10 + (d - b'0')) % u16_mod) ds

-- The closure `num` of `parse_version`.
unfoldable pub version_number : Bytes → Result ℕ
unfolding fold_digits
version_number s = do
  refuse (not (all (λ d. leb b'0' d && leb d b'9') s)) bad_version
  ok (fold_digits 0 s)

unfoldable pub parse_version : Bytes → Result (ℕ × ℕ)
unfolding eq_bytes version_number
parse_version buf = do
  refuse
      (not (length buf == version_len)
        || (not (eq_bytes (take 4 buf) (b'R' ∷ b'F' ∷ b'B' ∷ b' ' ∷ []))
            || (not (byte_at buf 7 == b'.') || not (byte_at buf 11 == 10))))
      bad_version
  major ← version_number (take 3 (drop 4 buf))
  minor ← version_number (take 3 (drop 8 buf))
  ok (major, minor)

-- What each writer appends to `out`.
unfoldable pub write_security_types : Bytes → Bytes
write_security_types types = length types % 256 ∷ types

unfoldable pub write_security_type_v33 : ℕ → Bytes
write_security_type_v33 security_type = be32 security_type

unfoldable pub write_reason : Text → Bytes
write_reason reason = be32 (length (as_bytes reason) % u32_mod) ++ as_bytes reason

unfoldable pub write_security_types_failure : Flow → Text → Bytes
unfolding write_reason
write_security_types_failure v33 reason = be32 0 ++ write_reason reason
write_security_types_failure v37 reason = 0 ∷ write_reason reason
write_security_types_failure v38 reason = 0 ∷ write_reason reason

abbrev pub is_v38 : Flow → Bool
is_v38 v38 = true
is_v38 _ = false

unfoldable pub write_security_result : Flow → Bool → Text → Bytes
unfolding write_reason
write_security_result flow is_ok reason =
    be32 (if is_ok then 0 else 1) ++ (if not is_ok && is_v38 flow then write_reason reason else [])

pub record ServerInit : Type 0 where
  pub width : ℕ
  pub height : ℕ
  pub pixel_format : PixelFormat
  pub name : Text

abbrev pub max_name : ℕ
max_name = 4096

-- `&self.name.as_bytes()[..self.name.len().min(MAX_NAME)]`
unfoldable pub name_bytes : ServerInit → Bytes
name_bytes s = take (min (length (as_bytes s.name)) max_name) (as_bytes s.name)

unfoldable pub write : ServerInit → Bytes
unfolding name_bytes
write s =
    be16 s.width
    ++ (be16 s.height
        ++ (PixelFormat.write s.pixel_format
            ++ (be32 (length (name_bytes s) % u32_mod) ++ name_bytes s)))

abbrev pub head : ℕ
head = 24

-- The end of `parse`, once the fixed part is there.
unfoldable pub parse_name : Bytes → ℕ → ℕ → PixelFormat → ℕ → Result (Option (ServerInit × ℕ))
parse_name buf width height pixel_format len = do
  refuse (ltb max_name len) (too_long "desktop name" len max_name)
  if ltb (length buf) (head + len)
      then ok none
      else ok (
          some (
            record {
              width = width;
              height = height;
              pixel_format = pixel_format;
              name = from_utf8_lossy (take len (drop head buf));
            },
            head + len,
          ))

unfoldable pub parse : Bytes → Result (Option (ServerInit × ℕ))
unfolding parse_name
parse buf = if ltb (length buf) head then ok none else (do
  pixel_format ← PixelFormat.parse (drop 4 buf)
  parse_name buf (of_be16 (byte_at buf 0) (byte_at buf 1)) (of_be16 (byte_at buf 2) (byte_at buf 3))
      pixel_format (of_be32 (byte_at buf 20) (byte_at buf 21) (byte_at buf 22) (byte_at buf 23)))
