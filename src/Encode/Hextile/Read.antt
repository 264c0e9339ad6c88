-- ===== src/Encode/Hextile/Read.antt =====
-- Reading a tile and encoding it (`read` and `tile` of crates/alloyvnc-encode/src/hextile.rs).
use native.Mathlib.Nat.{mul-div_cancel, mul_assoc}
use alloyvnc.Base.{
  ℕ, zero, suc, ◌+◌, ◌-◌, ◌*◌, ◌/◌, ◌≤◌, ◌<◌, ◌≡◌, refl, ◌∙◌, sym, ap, inl, inr, Option, ◌++◌,
  length, arith,
}
use alloyvnc.Base.Words.{I32, bias, bits_i32}
use alloyvnc.Region.Rect
use alloyvnc.Region.Rect.{Rect}
use alloyvnc.Proto.Wire.{Bytes}
use alloyvnc.Proto.PixelFormat.{PixelFormat, bytes_per_pixel}
use alloyvnc.Encode.Framebuffer.{Framebuffer, row_span}
use alloyvnc.Encode.Convert.{raw_rows, convert_row}
use alloyvnc.Encode.Lengths.{Fits, HasWidth, raw_rows-length}
use alloyvnc.Encode.Hextile.{Hextile, keys_from, tile_bytes, read, tile}
use alloyvnc.Encode.Hextile.Lengths.{tile-length}

-- A tile of a picture.
pub record TileOf (fb : Framebuffer) (r : Rect) : Type 0 where
  pub left : bias ≤ r.x1
  pub across : r.x1 < r.x2
  pub right : r.x2 ≤ bias + fb.width
  pub top : bias ≤ r.y1
  pub down : r.y1 < r.y2
  pub bottom : r.y2 ≤ bias + fb.height

tile_bytes-raw_rows :
    (n : ℕ) (y : I32) (r : Rect) (fb : Framebuffer) (pf : PixelFormat)
    → tile_bytes n y r fb pf ≡ raw_rows n y fb r pf
unfolding tile_bytes raw_rows
tile_bytes-raw_rows zero y r fb pf = refl
tile_bytes-raw_rows (suc n) y r fb pf =
    ap
      (λ l.
        convert_row (row_span fb (bits_i32 y) (bits_i32 r.x1) (bits_i32 (Rect.width r))) pf ++ l)
      (tile_bytes-raw_rows n (y + 1) r fb pf)

length-keys_from : (bpp n : ℕ) (bytes : Bytes) → length (keys_from bpp n bytes) ≡ n
unfolding keys_from
length-keys_from bpp zero bytes = refl
length-keys_from bpp (suc n) bytes = ap suc (length-keys_from bpp n _)

some_bytes : (pf : PixelFormat) → HasWidth pf → 0 < bytes_per_pixel pf
unfolding bytes_per_pixel
some_bytes pf (inl e) = rw e (omega arith)
some_bytes pf (inr (inl e)) = rw e (omega arith)
some_bytes pf (inr (inr e)) = rw e (omega arith)

module _ (fb : Framebuffer) (r : Rect) (pf : PixelFormat) (h : Hextile) (f : Fits fb)
    (w : HasWidth pf) (i : TileOf fb r) where
  bytes_lem :
      length (read fb r pf (bytes_per_pixel pf) h).bytes
      ≡ (r.y2 - r.y1) * ((r.x2 - r.x1) * bytes_per_pixel pf)
  unfolding read
  bytes_lem =
      ap length (tile_bytes-raw_rows (r.y2 - r.y1) r.y1 r fb pf)
      ∙ raw_rows-length (r.y2 - r.y1) r.y1 fb r pf f w i.left i.across i.right i.top
          (let d = i.down in let b = i.bottom in omega (arith, d, b))

  -- There is a key for each pixel.
  pub keys_lem : length (read fb r pf (bytes_per_pixel pf) h).keys ≡ (r.y2 - r.y1) * (r.x2 - r.x1)
  unfolding read
  keys_lem =
      let bpp : ℕ = bytes_per_pixel pf in
      length-keys_from bpp _ _
      ∙ (ap (λ k. k / bpp) (bytes_lem ∙ sym (mul_assoc (r.y2 - r.y1) (r.x2 - r.x1) bpp))
          ∙ mul-div_cancel ((r.y2 - r.y1) * (r.x2 - r.x1)) (some_bytes pf w))

  pub width_lem :
      ((read fb r pf (bytes_per_pixel pf) h).width ≡ r.x2 - r.x1)
      × ((read fb r pf (bytes_per_pixel pf) h).height ≡ r.y2 - r.y1)
  unfolding read Rect.width Rect.height
  width_lem =
      let a = f.narrow in
      let b = f.low in
      let c = i.left in
      let d = i.across in
      let e = i.right in
      let g = i.top in
      let j = i.down in let k = i.bottom in (ground (arith, a, c, d, e), ground (arith, b, g, j, k))

  -- A tile that is read from the picture takes at most its pixels in the client's format and one
  -- byte, whichever two colours carry over from the tile before.
  pub tile-read-length :
      (background foreground : Option ℕ)
      → length
          (tile
            (bytes_per_pixel pf)
            background
            foreground
            (read fb r pf (bytes_per_pixel pf) h)).out
        ≤ 1 + (r.y2 - r.y1) * ((r.x2 - r.x1) * bytes_per_pixel pf)
  tile-read-length background foreground =
      let bpp : ℕ = bytes_per_pixel pf in
      let b = bytes_lem in
      let same : length (read fb r pf bpp h).bytes ≡ length (read fb r pf bpp h).keys * bpp =
        b ∙ (sym (mul_assoc (r.y2 - r.y1) (r.x2 - r.x1) bpp) ∙ ap (λ k. k * bpp) (sym keys_lem)) in
      let l = tile-length bpp background foreground (read fb r pf bpp h) same in omega (arith, l, b)
