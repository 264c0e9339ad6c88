-- ===== src/Encode/Cursor/Mask.antt =====
-- How many bytes a pointer takes: its colours, and then a mask of whole bytes a row
-- (`encode_cursor` of crates/alloyvnc-encode/src/cursor.rs).
use native.Mathlib.Nat.{suc-mul, mul-div_cancel}
use alloyvnc.Base.{
  ℕ, zero, suc, ◌+◌, ◌*◌, ◌/◌, ◌<◌, ◌≡◌, refl, ◌∙◌, ap, false, some, List, [], ◌∷◌, ◌++◌, drop,
  length, length-append, length-take, length-drop, All, arith, ◌==◌,
}
use alloyvnc.Proto.Wire.{Bytes}
use alloyvnc.Proto.PixelFormat.{PixelFormat, bytes_per_pixel}
use alloyvnc.Encode.Convert.{convert_row}
use alloyvnc.Encode.Lengths.{HasWidth, convert_row-length}
use alloyvnc.Encode.Cursor.{
  CursorShape, bgrx_line, lines_of, whole_lines, colour_lines, mask_line, mask_lines, encode_cursor,
}

bgrx_line-length : (n : ℕ) (line : Bytes) → length line ≡ n * 4 → length (bgrx_line line) ≡ n * 4
unfolding bgrx_line
bgrx_line-length zero [] h = h
bgrx_line-length zero (b ∷ line) h = absurd (omega (arith, h))
bgrx_line-length (suc n) (b ∷ g ∷ r ∷ x ∷ rest) h =
    let more = bgrx_line-length n rest (omega (arith, h)) in omega (arith, more)
bgrx_line-length (suc n) [] h = absurd (omega (arith, h))
bgrx_line-length (suc n) (a ∷ []) h = absurd (omega (arith, h))
bgrx_line-length (suc n) (a ∷ b ∷ []) h = absurd (omega (arith, h))
bgrx_line-length (suc n) (a ∷ b ∷ c ∷ []) h = absurd (omega (arith, h))

lines_of_lem :
    (n size : ℕ) (bytes : Bytes)
    → length bytes ≡ n * size
    → (length (lines_of n size bytes) ≡ n)
      × All (λ line. length line ≡ size) (lines_of n size bytes)
unfolding lines_of
lines_of_lem zero size bytes h = (refl, tt)
lines_of_lem (suc n) size bytes h =
    let count = suc-mul n size in
    let left = length-drop size bytes in
    let rest = lines_of_lem n size (drop size bytes) (omega (arith, h, count, left)) in
    (ap suc rest.0, (length-take size bytes (omega (arith, h, count)), rest.1))

colour_lines-length :
    (pf : PixelFormat) (width : ℕ) (lines : List Bytes)
    → HasWidth pf
    → All (λ line. length line ≡ width * 4) lines
    → length (colour_lines pf lines) ≡ length lines * (width * bytes_per_pixel pf)
unfolding colour_lines
colour_lines-length pf width [] w h = omega arith
colour_lines-length pf width (line ∷ lines) w h =
    let here : length (convert_row (bgrx_line line) pf) ≡ width * bytes_per_pixel pf =
      convert_row-length pf width (bgrx_line line) w (bgrx_line-length width line h.0) in
    let rest = colour_lines-length pf width lines w h.1 in
    let count = suc-mul (length lines) (width * bytes_per_pixel pf) in
    length-append (convert_row (bgrx_line line) pf) (colour_lines pf lines)
    ∙ omega (arith, here, rest, count)

mask_line-length : (n : ℕ) (line : Bytes) → length (mask_line n line) ≡ n
unfolding mask_line
mask_line-length zero line = refl
mask_line-length (suc n) line = ap suc (mask_line-length n (drop 32 line))

mask_lines-length : (n : ℕ) (lines : List Bytes) → length (mask_lines n lines) ≡ length lines * n
unfolding mask_lines
mask_lines-length n [] = omega arith
mask_lines-length n (line ∷ lines) =
    let here = mask_line-length n line in
    let rest = mask_lines-length n lines in
    let count = suc-mul (length lines) n in
    length-append (mask_line n line) (mask_lines n lines) ∙ omega (arith, here, rest, count)

-- A pointer of some width, whose pixels are all there, is encoded, and takes the bytes of its
-- pixels in the client's format and a bit for each pixel in rows of whole bytes.
pub encode_cursor-length :
    (shape : CursorShape) (pf : PixelFormat)
    → HasWidth pf
    → 0 < shape.width
    → length shape.rgba ≡ shape.height * (shape.width * 4)
    → (bytes : Bytes) × ((encode_cursor shape pf ≡ some bytes)
        × (length bytes
            ≡ shape.height * (shape.width * bytes_per_pixel pf)
              + shape.height * ((shape.width + 7) / 8)))
unfolding encode_cursor
encode_cursor-length shape pf w pos h =
    let some_width : (shape.width == 0) ≡ false = ground arith in
    let count : length shape.rgba / (shape.width * 4) ≡ shape.height =
      ap (λ k. k / (shape.width * 4)) h ∙ mul-div_cancel shape.height (omega (arith, pos)) in
    let lines = lines_of_lem shape.height (shape.width * 4) shape.rgba h in
    let whole : whole_lines shape ≡ lines_of shape.height (shape.width * 4) shape.rgba =
      ap (λ n. lines_of n (shape.width * 4) shape.rgba) count in
    let cut : List Bytes = lines_of shape.height (shape.width * 4) shape.rgba in
    let colours = colour_lines-length pf shape.width cut w lines.1 in
    let mask = mask_lines-length ((shape.width + 7) / 8) cut in
    (
      colour_lines pf (whole_lines shape) ++ mask_lines ((shape.width + 7) / 8) (whole_lines shape),
      (
        rw some_width refl,
        ap (λ ls. length (colour_lines pf ls ++ mask_lines ((shape.width + 7) / 8) ls)) whole
            ∙ (length-append (colour_lines pf cut) (mask_lines ((shape.width + 7) / 8) cut)
                ∙ rw (colours, mask, lines.0) refl),
      ),
    )
