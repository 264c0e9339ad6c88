-- ===== src/Proto/PixelFormat.antt =====
-- crates/alloyvnc-proto/src/pixel_format.rs
pub mod Laws
mod Tests
use alloyvnc.Base.{
  ℕ, zero, suc, ◌+◌, ◌*◌, ◌/◌, ◌%◌, ◌^◌, Bool, true, false, not, ◌&&◌, ◌||◌, List, [], ◌∷◌, ◌++◌,
  ltb, length, leb, ◌==◌, if◌then◌else◌,
}
use alloyvnc.Proto.Error.{
  Error, unsupported_pixel_format, truncated, Result, ok, err, ◌>>=◌, ◌>>◌, refuse,
}
use alloyvnc.Proto.Wire.{Bytes, byte_at, be16, of_be16, of_bool, to_bool}

pub record PixelFormat : Type 0 where
  pub bits_per_pixel : ℕ
  pub depth : ℕ
  pub big_endian : Bool
  pub true_colour : Bool
  pub red_max : ℕ
  pub green_max : ℕ
  pub blue_max : ℕ
  pub red_shift : ℕ
  pub green_shift : ℕ
  pub blue_shift : ℕ

abbrev pub wire_len : ℕ
wire_len = 16

abbrev pub bgrx32 : PixelFormat
bgrx32 = record {
  bits_per_pixel = 32;
  depth = 24;
  big_endian = false;
  true_colour = true;
  red_max = 255;
  green_max = 255;
  blue_max = 255;
  red_shift = 16;
  green_shift = 8;
  blue_shift = 0;
}

abbrev pub rgb565 : PixelFormat
rgb565 = record {
  bits_per_pixel = 16;
  depth = 16;
  big_endian = false;
  true_colour = true;
  red_max = 31;
  green_max = 63;
  blue_max = 31;
  red_shift = 11;
  green_shift = 5;
  blue_shift = 0;
}

abbrev pub bgr233 : PixelFormat
bgr233 = record {
  bits_per_pixel = 8;
  depth = 8;
  big_endian = false;
  true_colour = true;
  red_max = 7;
  green_max = 7;
  blue_max = 3;
  red_shift = 0;
  green_shift = 3;
  blue_shift = 6;
}

unfoldable pub bytes_per_pixel : PixelFormat → ℕ
bytes_per_pixel pf = pf.bits_per_pixel / 8

-- `u16_at`
abbrev pub u16_at : Bytes → ℕ → ℕ
u16_at buf i = of_be16 (byte_at buf i) (byte_at buf (i + 1))

unfoldable pub parse : Bytes → Result PixelFormat
parse buf = do
  refuse (ltb (length buf) wire_len) (truncated "pixel format")
  ok (record {
    bits_per_pixel = byte_at buf 0;
    depth = byte_at buf 1;
    big_endian = to_bool (byte_at buf 2);
    true_colour = to_bool (byte_at buf 3);
    red_max = u16_at buf 4;
    green_max = u16_at buf 6;
    blue_max = u16_at buf 8;
    red_shift = byte_at buf 10;
    green_shift = byte_at buf 11;
    blue_shift = byte_at buf 12;
  })

-- What is appended to `out`.
unfoldable pub write : PixelFormat → Bytes
write pf =
    pf.bits_per_pixel
    ∷ pf.depth
    ∷ of_bool pf.big_endian
    ∷ of_bool pf.true_colour
    ∷ (be16 pf.red_max
        ++ (be16 pf.green_max
            ++ (be16 pf.blue_max
                ++ pf.red_shift ∷ pf.green_shift ∷ pf.blue_shift ∷ 0 ∷ 0 ∷ 0 ∷ [])))

-- `trailing_zeros` of a `u32` that is not 0: how often 2 divides it. A number below 2 ^ 32 is
-- halved at most 32 times.
pub trailing_zeros : ℕ → ℕ → ℕ
trailing_zeros zero n = 0
trailing_zeros (suc fuel) n =
    let rest = trailing_zeros fuel (n / 2) in if n % 2 == 0 then rest + 1 else 0

-- `is_power_of_two`
pub is_power_of_two : ℕ → Bool
is_power_of_two n = 2 ^ trailing_zeros 32 n == n

unfoldable pub validate_channel : ℕ → ℕ → ℕ → Result (Unit {0})
validate_channel bits_per_pixel max shift = do
  refuse (max == 0 || not (is_power_of_two (max + 1)))
      (unsupported_pixel_format "channel max is not 2^n - 1")
  refuse (ltb bits_per_pixel (shift + trailing_zeros 32 (max + 1)))
      (unsupported_pixel_format "channel does not fit in the pixel")

unfoldable pub validate : PixelFormat → Result (Unit {0})
validate pf = do
  refuse (not pf.true_colour) (unsupported_pixel_format "colour map")
  refuse (not (pf.bits_per_pixel == 8 || (pf.bits_per_pixel == 16 || pf.bits_per_pixel == 32)))
      (unsupported_pixel_format "bits per pixel must be 8, 16 or 32")
  refuse (ltb pf.bits_per_pixel pf.depth) (unsupported_pixel_format "depth exceeds bits per pixel")
  validate_channel pf.bits_per_pixel pf.red_max pf.red_shift
  validate_channel pf.bits_per_pixel pf.green_max pf.green_shift
  validate_channel pf.bits_per_pixel pf.blue_max pf.blue_shift
