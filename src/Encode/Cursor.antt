-- ===== src/Encode/Cursor.antt =====
-- crates/alloyvnc-encode/src/cursor.rs: the pointer as a shape.
pub mod Mask
use alloyvnc.Base.{
  ℕ, zero, suc, ◌+◌, ◌*◌, ◌/◌, ◌%◌, ◌^◌, Bool, ◌||◌, Option, none, some, List, [], ◌∷◌, ◌++◌, take,
  drop, length, leb, ◌==◌, if◌then◌else◌,
}
use alloyvnc.Proto.Wire.{Bytes, be32}
use alloyvnc.Proto.PixelFormat.{PixelFormat}
use alloyvnc.Encode.Convert.{convert_row}

pub record CursorShape : Type 0 where
  pub width : ℕ
  pub height : ℕ
  pub hot_x : ℕ
  pub hot_y : ℕ
  pub rgba : Bytes

abbrev pub hidden : CursorShape
hidden = record { width = 0; height = 0; hot_x = 0; hot_y = 0; rgba = [] }

unfoldable pub is_hidden : CursorShape → Bool
is_hidden shape = shape.width == 0 || shape.height == 0

-- One line of `R, G, B, A` as the framebuffer's `B, G, R, 0`.
unfoldable pub bgrx_line : Bytes → Bytes
bgrx_line (r ∷ g ∷ b ∷ a ∷ rest) = b ∷ g ∷ r ∷ 0 ∷ bgrx_line rest
bgrx_line _ = []

-- `chunks_exact(size)` of lines that are whole. A size of 0 is a panic in the source.
unfoldable pub lines_of : ℕ → ℕ → Bytes → List Bytes
lines_of zero size bytes = []
lines_of (suc n) size bytes = take size bytes ∷ lines_of n size (drop size bytes)

abbrev pub whole_lines : CursorShape → List Bytes
whole_lines shape = lines_of (length shape.rgba / (shape.width * 4)) (shape.width * 4) shape.rgba

unfoldable pub colour_lines : PixelFormat → List Bytes → Bytes
unfolding bgrx_line
colour_lines pf [] = []
colour_lines pf (line ∷ lines) = convert_row (bgrx_line line) pf ++ colour_lines pf lines

-- The bits of up to eight pixels, `0x80` first. Each is another bit, so that their sum is their `|`.
unfoldable pub mask_bits : ℕ → Bytes → ℕ
mask_bits weight (r ∷ g ∷ b ∷ a ∷ rest) =
    (if leb 128 a then weight else 0) + mask_bits (weight / 2) rest
mask_bits weight _ = 0

-- One row of the mask, with the bytes that are left of it.
unfoldable pub mask_line : ℕ → Bytes → Bytes
unfolding mask_bits
mask_line zero line = []
mask_line (suc n) line = mask_bits 128 (take 32 line) ∷ mask_line n (drop 32 line)

unfoldable pub mask_lines : ℕ → List Bytes → Bytes
unfolding mask_line
mask_lines n [] = []
mask_lines n (line ∷ lines) = mask_line n line ++ mask_lines n lines

-- `None` stands for the panic of `chunks_exact(0)`.
unfoldable pub encode_cursor : CursorShape → PixelFormat → Option Bytes
unfolding colour_lines mask_lines lines_of
encode_cursor shape pf =
    if shape.width == 0
    then none
    else some (
        colour_lines pf (whole_lines shape)
        ++ mask_lines ((shape.width + 7) / 8) (whole_lines shape))

unfoldable pub encode_cursor_with_alpha : CursorShape → Bytes
encode_cursor_with_alpha shape = be32 0 ++ shape.rgba
