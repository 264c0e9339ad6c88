-- ===== src/Encode/Lengths.antt =====
-- How many bytes a rectangle takes (`convert_row` of crates/alloyvnc-encode/src/convert.rs, and
-- raw.rs and cursor.rs of the same crate).
use native.Mathlib.Nat.{mul-le-mul_right, add-mul, suc-mul}
use alloyvnc.Base.{
  length-take, length-drop, max, ℕ, zero, suc, ◌+◌, ◌-◌, ◌*◌, ◌≤◌, ◌<◌, min, ◌≡◌, refl, ◌∙◌, ap,
  inl, inr, ◌⊎◌, true, false, ◌||◌, Bool-cases, [], ◌∷◌, length, length-append, arith, leb,
}
use alloyvnc.Base.Words.{I32, bits_i32, bias}
use alloyvnc.Region.Rect
use alloyvnc.Region.Rect.{Rect}
use alloyvnc.Proto.Wire.{Bytes}
use alloyvnc.Proto.PixelFormat.{PixelFormat, bytes_per_pixel}
use alloyvnc.Encode.Framebuffer.{Framebuffer, row_span, stride, bounds}
use alloyvnc.Encode.Convert.{
  eq_format, is_native, pack, pixel_bytes, convert_pixels, convert_row, raw_rows, raw_encode,
}

-- A pixel has 8, 16 or 32 bits, as `validate` has it.
abbrev pub HasWidth : PixelFormat → Type 0
HasWidth pf = (pf.bits_per_pixel ≡ 8) ⊎ ((pf.bits_per_pixel ≡ 16) ⊎ (pf.bits_per_pixel ≡ 32))

pixel_bytes-length :
    (pf : PixelFormat) (v : ℕ) → HasWidth pf → length (pixel_bytes pf v) ≡ bytes_per_pixel pf
unfolding pixel_bytes bytes_per_pixel
pixel_bytes-length pf v (inl e) = rw e refl
pixel_bytes-length pf v (inr (inl e)) =
    rw e (elim (Bool-cases pf.big_endian) [ inl big ↦ rw big refl | inr little ↦ rw little refl ])
pixel_bytes-length pf v (inr (inr e)) =
    rw e (elim (Bool-cases pf.big_endian) [ inl big ↦ rw big refl | inr little ↦ rw little refl ])

convert_pixels-length :
    (pf : PixelFormat) (n : ℕ) (src : Bytes)
    → HasWidth pf
    → length src ≡ n * 4
    → length (convert_pixels pf src) ≡ n * bytes_per_pixel pf
unfolding convert_pixels
convert_pixels-length pf zero [] w h = omega arith
convert_pixels-length pf zero (b ∷ src) w h = ground arith
convert_pixels-length pf (suc n) (b ∷ g ∷ r ∷ x ∷ rest) w h =
    let here = pixel_bytes-length pf (pack pf b g r) w in
    let rest = convert_pixels-length pf n rest w (ground arith) in
    length-append (pixel_bytes pf (pack pf b g r)) _ ∙ ground (arith, here, rest)
convert_pixels-length pf (suc n) [] w h = ground arith
convert_pixels-length pf (suc n) (a ∷ []) w h = ground arith
convert_pixels-length pf (suc n) (a ∷ b ∷ []) w h = ground arith
convert_pixels-length pf (suc n) (a ∷ b ∷ c ∷ []) w h = ground arith

-- A row of `n` pixels takes the bytes of `n` pixels in the client's format.
pub convert_row-length :
    (pf : PixelFormat) (n : ℕ) (src : Bytes)
    → HasWidth pf
    → length src ≡ n * 4
    → length (convert_row src pf) ≡ n * bytes_per_pixel pf
unfolding convert_row is_native eq_format bytes_per_pixel
convert_row-length pf n src w h = elim (Bool-cases (is_native pf)) [
  | inl native ↦ rw native (ground arith)
  | inr other ↦ rw other (convert_pixels-length pf n src w h)
]

-- A picture with its pixels, no larger than an `i32` counts.
pub record Fits (fb : Framebuffer) : Type 0 where
  pub narrow : fb.width < bias
  pub low : fb.height < bias
  pub whole : length fb.pixels ≡ fb.height * stride fb

row_span-length :
    (fb : Framebuffer) (y x width : ℕ)
    → Fits fb
    → y < fb.height
    → x + width ≤ fb.width
    → length (row_span fb y x width) ≡ width * 4
unfolding row_span
row_span-length fb y x width f below right =
    let lines : (y + 1) * stride fb ≤ fb.height * stride fb =
      mul-le-mul_right (stride fb) (omega arith) in
    let line : (y + 1) * stride fb ≡ y * stride fb + 1 * stride fb = add-mul y 1 (stride fb) in
    let left = length-drop (y * stride fb + x * 4) fb.pixels in
    length-take (width * 4) _ (omega (arith, lines, line, left, f.whole, right))

pub raw_rows-length :
    (n : ℕ) (y : I32) (fb : Framebuffer) (rect : Rect) (pf : PixelFormat)
    → Fits fb
    → HasWidth pf
    → bias ≤ rect.x1
    → rect.x1 < rect.x2
    → rect.x2 ≤ bias + fb.width
    → bias ≤ y
    → y + n ≤ bias + fb.height
    → length (raw_rows n y fb rect pf) ≡ n * ((rect.x2 - rect.x1) * bytes_per_pixel pf)
unfolding raw_rows Rect.width
raw_rows-length zero y fb rect pf f w a b c d e = omega arith
raw_rows-length (suc n) y fb rect pf f w a b c d e =
    let wide : bits_i32 (Rect.width rect) ≡ rect.x2 - rect.x1 =
      let q = f.narrow in ground (arith, q) in
    let span =
      row_span-length fb (bits_i32 y) (bits_i32 rect.x1) (bits_i32 (Rect.width rect)) f
        (let q = f.low in omega (arith, q)) (let q = f.narrow in omega (arith, q, wide)) in
    let line : length (
          convert_row (row_span fb (bits_i32 y) (bits_i32 rect.x1) (bits_i32 (Rect.width rect))) pf)
        ≡ (rect.x2 - rect.x1) * bytes_per_pixel pf =
      convert_row-length pf (rect.x2 - rect.x1) _ w (span ∙ ap (λ k. k * 4) wide) in
    let rest = raw_rows-length n (y + 1) fb rect pf f w a b c (omega arith) (omega arith) in
    length-append (convert_row _ pf) _
    ∙ (ap (λ k. k + length (raw_rows n (y + 1) fb rect pf)) line
        ∙ omega (arith, rest, suc-mul n ((rect.x2 - rect.x1) * bytes_per_pixel pf)))

-- What the picture has of a rectangle, as long as that is not empty.
pub overlap_lem :
    (r q : Rect)
    → Rect.is_empty (Rect.intersection r q) ≡ false
    → let c = Rect.intersection r q in
      (c.x1 ≡ max r.x1 q.x1)
      × ((c.x2 ≡ min r.x2 q.x2)
          × ((c.y1 ≡ max r.y1 q.y1)
              × ((c.y2 ≡ min r.y2 q.y2)
                  × ((max r.x1 q.x1 < min r.x2 q.x2) × (max r.y1 q.y1 < min r.y2 q.y2)))))
unfolding Rect.intersection Rect.normalised Rect.is_empty
overlap_lem r q h =
    elim (Bool-cases (leb (min r.x2 q.x2) (max r.x1 q.x1) || leb (min r.y2 q.y2) (max r.y1 q.y1))) [
      | inl on ↦ let e : Rect.is_empty (Rect.intersection r q) ≡ true = rw on refl in absurd (cc)
      | inr off ↦ rw off (refl, (refl, (refl, (refl, (ground (arith, off), ground (arith, off))))))
    ]

pub bounds_lem :
    (fb : Framebuffer)
    → Fits fb
    → ((bounds fb).x1 ≡ bias)
      × (((bounds fb).x2 ≡ bias + fb.width)
          × (((bounds fb).y1 ≡ bias) × ((bounds fb).y2 ≡ bias + fb.height)))
unfolding bounds Rect.new
bounds_lem fb f =
    let a = f.narrow in let b = f.low in (omega arith, (omega arith, (omega arith, omega arith)))

no_bytes : (r : Rect) (k : ℕ) → Rect.is_empty r ≡ true → 0 ≡ (r.y2 - r.y1) * ((r.x2 - r.x1) * k)
unfolding Rect.is_empty
no_bytes r k h = elim (Bool-cases (leb r.x2 r.x1)) [
  | inl on ↦ let z : r.x2 - r.x1 ≡ 0 = ground arith in rw z (omega arith)
  | inr off ↦ let z : r.y2 - r.y1 ≡ 0 = ground arith in rw z (omega arith)
]

-- A raw rectangle of a picture takes as many bytes as the pixels of its part inside the picture do in
-- the client's format.
pub raw_encode-length :
    (fb : Framebuffer) (rect : Rect) (pf : PixelFormat)
    → Fits fb
    → HasWidth pf
    → let clipped = Rect.intersection rect (bounds fb) in
      length (raw_encode fb rect pf)
      ≡ (clipped.y2 - clipped.y1) * ((clipped.x2 - clipped.x1) * bytes_per_pixel pf)
unfolding raw_encode
raw_encode-length fb rect pf f w =
    let clipped : Rect = Rect.intersection rect (bounds fb) in
    elim (Bool-cases (Rect.is_empty clipped)) [
      | inl none_left ↦ rw none_left (no_bytes clipped (bytes_per_pixel pf) none_left)
      | inr some_left ↦
          let o = overlap_lem rect (bounds fb) some_left in
          let b = bounds_lem fb f in
          rw some_left (
            raw_rows-length (clipped.y2 - clipped.y1) clipped.y1 fb clipped pf f w
              (ground (arith, o, b)) (ground (arith, o, b)) (ground (arith, o, b))
              (ground (arith, o, b)) (ground (arith, o, b)))
    ]
