-- ===== src/Encode/Tests.antt =====
-- Small pictures and pointers, and the theorems at them.
use alloyvnc.Base.{◌+◌, ◌-◌, ◌*◌, ◌/◌, ◌≡◌, refl, inl, inr, some, [], ◌∷◌, length, arith}
use alloyvnc.Base.Words.{i32}
use alloyvnc.Region.Rect
use alloyvnc.Region.Rect.{Rect}
use alloyvnc.Proto.Wire.{Bytes}
use alloyvnc.Proto.PixelFormat.{bgrx32, rgb565, bytes_per_pixel}
use alloyvnc.Encode.Framebuffer
use alloyvnc.Encode.Framebuffer.{Framebuffer}
use alloyvnc.Encode.Convert.{convert_row, raw_encode}
use alloyvnc.Encode.Lengths.{Fits, raw_encode-length}
use alloyvnc.Encode.Cursor.{CursorShape, encode_cursor}
use alloyvnc.Encode.Cursor.Mask.{encode_cursor-length}

abbrev two_by_two : Framebuffer
two_by_two = record {
  width = 2;
  height = 2;
  pixels = 0 ∷ 0 ∷ 255 ∷ 0 ∷ 0 ∷ 255 ∷ 0 ∷ 0 ∷ 255 ∷ 0 ∷ 0 ∷ 0 ∷ 255 ∷ 255 ∷ 255 ∷ 0 ∷ [];
}

two_by_two-Fits : Fits two_by_two
two_by_two-Fits = record { narrow = omega arith; low = omega arith; whole = refl }

abbrev right_column : Rect
right_column = Rect.new (i32 1) (i32 0) (i32 1) (i32 2)

-- The right column in 16 bits a pixel: green and white.
right_column_bytes : raw_encode two_by_two right_column rgb565 ≡ 224 ∷ 7 ∷ 255 ∷ 255 ∷ []
unfolding raw_encode Rect.new Rect.is_empty Rect.intersection Framebuffer.bounds convert_row
    Framebuffer.row_span Rect.width
right_column_bytes = refl

raw_encode-length_example :
    length (raw_encode two_by_two right_column rgb565)
    ≡ ((Rect.intersection right_column (Framebuffer.bounds two_by_two)).y2
        - (Rect.intersection right_column (Framebuffer.bounds two_by_two)).y1)
      * (((Rect.intersection right_column (Framebuffer.bounds two_by_two)).x2
            - (Rect.intersection right_column (Framebuffer.bounds two_by_two)).x1)
          * bytes_per_pixel rgb565)
raw_encode-length_example =
    raw_encode-length two_by_two right_column rgb565 two_by_two-Fits (inr (inl refl))

abbrev dot : CursorShape
dot = record { width = 1; height = 1; hot_x = 0; hot_y = 0; rgba = 1 ∷ 2 ∷ 3 ∷ 255 ∷ [] }

encode_cursor-length_example :
    (bytes : Bytes) × ((encode_cursor dot bgrx32 ≡ some bytes)
      × (length bytes ≡ 1 * (1 * bytes_per_pixel bgrx32) + 1 * ((1 + 7) / 8)))
encode_cursor-length_example = encode_cursor-length dot bgrx32 (inr (inr refl)) (omega arith) refl
