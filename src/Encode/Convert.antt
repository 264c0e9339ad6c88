-- ===== src/Encode/Convert.antt =====
-- crates/alloyvnc-encode/src/convert.rs and raw.rs: pixels into a client's format.
use Prim.Native.Nat.{bit_or}
use alloyvnc.Base.{
  ℕ, zero, suc, ◌+◌, ◌-◌, ◌*◌, ◌/◌, ◌%◌, ◌^◌, Bool, true, false, not, ◌&&◌, [], ◌∷◌, ◌++◌, ◌==◌,
  if◌then◌else◌,
}
use alloyvnc.Base.Words.{I32, u8_mod, u16_mod, u32_mod, bits_i32}
use alloyvnc.Proto.Wire.{Bytes, be16, be32}
use alloyvnc.Proto.PixelFormat.{PixelFormat, bgrx32}
use alloyvnc.Region.Rect
use alloyvnc.Region.Rect.{Rect}
use alloyvnc.Encode.Framebuffer.{Framebuffer, row_span, bounds}

abbrev pub eq_bool : Bool → Bool → Bool
eq_bool true b = b
eq_bool false b = not b

-- The derived `==` of `PixelFormat`.
unfoldable pub eq_format : PixelFormat → PixelFormat → Bool
eq_format p q =
    p.bits_per_pixel == q.bits_per_pixel
    && (p.depth == q.depth
        && (eq_bool p.big_endian q.big_endian
            && (eq_bool p.true_colour q.true_colour
                && (p.red_max == q.red_max
                    && (p.green_max == q.green_max
                        && (p.blue_max == q.blue_max
                            && (p.red_shift == q.red_shift
                                && (p.green_shift == q.green_shift
                                    && p.blue_shift == q.blue_shift))))))))

unfoldable pub is_native : PixelFormat → Bool
unfolding eq_format
is_native pf = eq_format pf bgrx32

-- Rounded to nearest, in a `u32`.
unfoldable pub scale : ℕ → ℕ → ℕ
scale c max = if max == 255 then c else (c * max + 127) / 255

-- `<<` on a `u32`, which drops the bits past the top.
abbrev pub shift_left : ℕ → ℕ → ℕ
shift_left n by = n * 2 ^ by % u32_mod

-- One pixel, its four bytes blue first.
unfoldable pub pack : PixelFormat → ℕ → ℕ → ℕ → ℕ
unfolding scale
pack pf b g r =
    bit_or
      (bit_or (shift_left (scale r pf.red_max) pf.red_shift)
        (shift_left (scale g pf.green_max) pf.green_shift))
      (shift_left (scale b pf.blue_max) pf.blue_shift)

abbrev pub le16 : ℕ → Bytes
le16 v = v % 256 ∷ v / 256 % 256 ∷ []

abbrev pub le32 : ℕ → Bytes
le32 v = v % 256 ∷ v / 2 ^ 8 % 256 ∷ v / 2 ^ 16 % 256 ∷ v / 2 ^ 24 % 256 ∷ []

-- `match (pf.bits_per_pixel, pf.big_endian)`
unfoldable pub pixel_bytes : PixelFormat → ℕ → Bytes
pixel_bytes pf v =
    if pf.bits_per_pixel == 8
    then v % u8_mod ∷ []
    else if pf.bits_per_pixel == 16
    then if pf.big_endian then be16 (v % u16_mod) else le16 (v % u16_mod)
    else if pf.big_endian
    then be32 v
    else le32 v

-- The loop over `as_chunks::<4>()`.
unfoldable pub convert_pixels : PixelFormat → Bytes → Bytes
unfolding pack pixel_bytes
convert_pixels pf (b ∷ g ∷ r ∷ x ∷ rest) = pixel_bytes pf (pack pf b g r) ++ convert_pixels pf rest
convert_pixels pf _ = []

unfoldable pub convert_row : Bytes → PixelFormat → Bytes
unfolding is_native convert_pixels
convert_row src pf = if is_native pf then src else convert_pixels pf src

-- `for y in rect.y1..rect.y2`, with the rounds that are left.
unfoldable pub raw_rows : ℕ → I32 → Framebuffer → Rect → PixelFormat → Bytes
raw_rows zero y fb rect pf = []
raw_rows (suc n) y fb rect pf =
    convert_row (row_span fb (bits_i32 y) (bits_i32 rect.x1) (bits_i32 (Rect.width rect))) pf
    ++ raw_rows n (y + 1) fb rect pf

-- `raw::encode`
unfoldable pub raw_encode : Framebuffer → Rect → PixelFormat → Bytes
unfolding raw_rows
raw_encode fb rect pf =
    let clipped : Rect = Rect.intersection rect (bounds fb) in
    if Rect.is_empty clipped
    then []
    else raw_rows (clipped.y2 - clipped.y1) clipped.y1 fb clipped pf

-- `copyrect::encode`, of two `u16`.
unfoldable pub copyrect_encode : ℕ → ℕ → Bytes
copyrect_encode src_x src_y = be16 src_x ++ be16 src_y
