-- ===== src/Encode/Framebuffer.antt =====
-- crates/alloyvnc-encode/src/framebuffer.rs: the picture as captured, in rows of four bytes a pixel.
-- A slice out of range is a panic in the source, and cut short here.
use alloyvnc.Base.{
  ℕ, zero, suc, ◌+◌, ◌*◌, not, ◌||◌, [], ◌∷◌, ◌++◌, take, drop, length, ◌==◌, if◌then◌else◌,
}
use alloyvnc.Base.Words.{i32, bits_i32}
use alloyvnc.Region.Rect
use alloyvnc.Region.Rect.{Rect}
use alloyvnc.Proto.Wire.{Bytes}

pub record Framebuffer : Type 0 where
  pub width : ℕ
  pub height : ℕ
  pub pixels : Bytes

abbrev pub bytes_per_pixel : ℕ
bytes_per_pixel = 4

unfoldable pub zeros : ℕ → Bytes
zeros zero = []
zeros (suc n) = 0 ∷ zeros n

unfoldable pub new : ℕ → ℕ → Framebuffer
unfolding zeros
new width height = record {
  width = width;
  height = height;
  pixels = zeros (width * height * bytes_per_pixel);
}

abbrev pub stride : Framebuffer → ℕ
stride fb = fb.width * bytes_per_pixel

-- `Rect::new(0, 0, self.width as i32, self.height as i32)`
unfoldable pub bounds : Framebuffer → Rect
bounds fb = Rect.new (i32 0) (i32 0) (bits_i32 fb.width) (bits_i32 fb.height)

unfoldable pub resize : Framebuffer → ℕ → ℕ → Framebuffer
unfolding new
resize fb width height =
    if not (width == fb.width) || not (height == fb.height) then new width height else fb

unfoldable pub row : Framebuffer → ℕ → Bytes
row fb y = take (stride fb) (drop (y * stride fb) fb.pixels)

unfoldable pub row_span : Framebuffer → ℕ → ℕ → ℕ → Bytes
row_span fb y x width =
    take (width * bytes_per_pixel) (drop (y * stride fb + x * bytes_per_pixel) fb.pixels)

-- `copy_from_slice` over the bytes from `start` on.
unfoldable pub write_at : ℕ → Bytes → Bytes → Bytes
write_at start bytes buffer = take start buffer ++ (bytes ++ drop (start + length bytes) buffer)

unfoldable pub put_pixel : Framebuffer → ℕ → ℕ → Bytes → Framebuffer
unfolding write_at
put_pixel fb x y px = record fb {
  pixels = write_at (y * stride fb + x * bytes_per_pixel) px fb.pixels;
}
