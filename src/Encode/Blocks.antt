-- ===== src/Encode/Blocks.antt =====
-- crates/alloyvnc-encode/src/framebuffer.rs: blocks of pixels, filled, brought in and moved. An
-- assertion that fails, and `chunks_exact` of no bytes, is none.
pub mod Stretches
pub mod Moves
pub mod Copies
pub mod Fills
mod Tests
use alloyvnc.Base.{
  ℕ, zero, suc, ◌+◌, ◌-◌, ◌*◌, Bool, not, ◌||◌, Option, none, some, [], ◌++◌, take, drop, length,
  ltb, leb, ◌==◌, if◌then◌else◌,
}
use alloyvnc.Base.Words.{I32, bits_i32}
use alloyvnc.Region.Rect
use alloyvnc.Region.Rect.{Rect}
use alloyvnc.Proto.Wire.{Bytes}
use alloyvnc.Encode.Framebuffer
use alloyvnc.Encode.Framebuffer.{Framebuffer, stride, row_span, write_at}

unfoldable pub pixel : Framebuffer → ℕ → ℕ → Bytes
pixel fb x y = row_span fb y x 1

-- `*dst = px` over a row.
unfoldable pub repeated : ℕ → Bytes → Bytes
repeated zero px = []
repeated (suc n) px = px ++ repeated n px

-- `for y in r.y1..r.y2`, with the rows that are left.
unfoldable pub fill_rows : ℕ → I32 → Rect → Bytes → Framebuffer → Framebuffer
unfolding repeated write_at
fill_rows zero y r px fb = fb
fill_rows (suc n) y r px fb = fill_rows n (y + 1) r px (record fb {
  pixels =
      write_at (bits_i32 y * stride fb + bits_i32 r.x1 * 4) (repeated (bits_i32 (Rect.width r)) px)
        fb.pixels;
})

unfoldable pub fill : Framebuffer → Rect → Bytes → Framebuffer
unfolding fill_rows
fill fb rect px =
    let r : Rect = Rect.intersection rect (Framebuffer.bounds fb) in
    if Rect.is_empty r then fb else fill_rows (r.y2 - r.y1) r.y1 r px fb

-- The loop over the rows of the source.
unfoldable pub blit_rows : ℕ → ℕ → ℕ → ℕ → Bytes → Framebuffer → Framebuffer
unfolding write_at
blit_rows zero x y row_bytes src fb = fb
blit_rows (suc n) x y row_bytes src fb =
    blit_rows n x (y + 1) row_bytes (drop row_bytes src)
      (record fb { pixels = write_at (y * stride fb + x * 4) (take row_bytes src) fb.pixels })

unfoldable pub blit : Framebuffer → ℕ → ℕ → ℕ → ℕ → Bytes → Option Framebuffer
unfolding blit_rows
blit fb x y width height src =
    if ltb (length src) (width * 4 * height)
    then none
    else if ltb fb.width (x + width) || ltb fb.height (y + height)
    then none
    else if width == 0
    then none
    else some (blit_rows height x y (width * 4) src fb)

-- `copy_within` of a slice: the bytes are read before they are written.
unfoldable pub copy_bytes : ℕ → ℕ → ℕ → Bytes → Bytes
unfolding write_at
copy_bytes from n to buffer = write_at to (take n (drop from buffer)) buffer

-- Which row is moved at step `k`.
abbrev pub row_at : Bool → ℕ → ℕ → ℕ
row_at downwards rows k = if downwards then rows - 1 - k else k

-- `for k in 0..rows`, with the steps that are left; the corners are in bytes from the left.
unfoldable pub copy_rows : (ℕ → ℕ) → ℕ → ℕ → ℕ → ℕ → ℕ → ℕ → ℕ → ℕ → Bytes → Bytes
unfolding copy_bytes
copy_rows order zero k src_y src_b dst_y dst_b row_bytes line buffer = buffer
copy_rows order (suc n) k src_y src_b dst_y dst_b row_bytes line buffer =
    copy_rows order n (k + 1) src_y src_b dst_y dst_b row_bytes line (
      copy_bytes ((src_y + order k) * line + src_b) row_bytes ((dst_y + order k) * line + dst_b)
        buffer)

-- What is moved onto a clipped destination that is not empty.
abbrev pub moved : Framebuffer → ℕ → ℕ → Rect → Framebuffer
moved fb src_x src_y dst =
    let rows = dst.y2 - dst.y1 in
    record fb {
      pixels =
          copy_rows (row_at (ltb src_y (bits_i32 dst.y1)) rows) rows 0 src_y (src_x * 4)
            (bits_i32 dst.y1) (bits_i32 dst.x1 * 4) (bits_i32 (Rect.width dst) * 4) (stride fb)
            fb.pixels;
    }

unfoldable pub copy_within : Framebuffer → ℕ → ℕ → Rect → Option Framebuffer
unfolding copy_rows
copy_within fb src_x src_y rect =
    let dst : Rect = Rect.intersection rect (Framebuffer.bounds fb) in
    let src : Rect =
      Rect.new (bits_i32 src_x) (bits_i32 src_y) (Rect.width dst) (Rect.height dst) in
    if Rect.is_empty dst
    then some fb
    else if not (Rect.contains (Framebuffer.bounds fb) src)
    then none
    else some (moved fb src_x src_y dst)
