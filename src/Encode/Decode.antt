-- ===== src/Encode/Decode.antt =====
-- crates/alloyvnc-encode/src/decode.rs: pixels back into the picture, the reader of a payload, and
-- the hextile decoder. The place in the payload and the picture are passed along; what ends a
-- decode early is one of two errors, without the text of the first.
pub mod Place
mod Tests
use Prim.Native.Nat.{bit_and}
use alloyvnc.Base.{
  ℕ, zero, suc, ◌+◌, ◌-◌, ◌*◌, ◌/◌, ◌%◌, ◌^◌, min, Bool, not, ◌||◌, [], ◌∷◌, take, drop, length,
  get_or, reverse, ltb, leb, ◌==◌, if◌then◌else◌,
}
use alloyvnc.Base.Words.{I32, i32, u8_mod, u64_mod, bits_i32}
use alloyvnc.Region.Rect
use alloyvnc.Region.Rect.{Rect}
use alloyvnc.Proto.Wire.{Bytes}
use alloyvnc.Proto.PixelFormat.{PixelFormat, bytes_per_pixel}
use alloyvnc.Encode.Framebuffer.{Framebuffer, put_pixel}
use alloyvnc.Encode.Blocks.{fill}
use alloyvnc.Encode.Hextile.{word_of, side}

pub data Decoded {ℓ} (A : Type ℓ) : Type ℓ where
  malformed : Decoded A
  truncated : ℕ → Decoded A
  decoded : A → Decoded A

-- `?`
unfoldable pub and_then {ℓ κ} : {A : Type ℓ} {B : Type κ} → Decoded A → (A → Decoded B) → Decoded B
and_then malformed f = malformed
and_then (truncated n) f = truncated n
and_then (decoded a) f = f a

-- One channel of a packed pixel, widened to eight bits.
unfoldable pub channel : ℕ → ℕ → ℕ → ℕ
channel value shift max =
    if max == 0
    then 0
    else if max == 255
    then bit_and (value / 2 ^ (shift % 32)) max % u8_mod
    else (bit_and (value / 2 ^ (shift % 32)) max * 255 + max / 2) / max % u8_mod

-- `Unpacker::pixel`
unfoldable pub unpack : PixelFormat → Bytes → Bytes
unfolding word_of channel
unpack pf src =
    let bytes : Bytes = take (bytes_per_pixel pf) src in
    let value = word_of (if pf.big_endian then reverse bytes else bytes) in
    channel value pf.blue_shift pf.blue_max
    ∷ channel value pf.green_shift pf.green_max
    ∷ channel value pf.red_shift pf.red_max
    ∷ 0
    ∷ []

-- `Reader::byte` and `Reader::take`, at a place in the payload.
unfoldable pub byte : Bytes → ℕ → Decoded (ℕ × ℕ)
byte payload at =
    if ltb at (length payload) then decoded (get_or payload at 0, at + 1) else truncated 1

unfoldable pub take_bytes : Bytes → ℕ → ℕ → Decoded (Bytes × ℕ)
take_bytes payload n at =
    if leb u64_mod (at + n)
    then malformed
    else if leb (at + n) (length payload)
    then decoded (take n (drop at payload), at + n)
    else truncated (at + n - length payload)

-- The pixels of a tile that was sent as it is, with the ones that are left.
unfoldable pub raw_pixels : PixelFormat → ℕ → ℕ → I32 → I32 → ℕ → Bytes → Framebuffer → Framebuffer
unfolding unpack
raw_pixels pf zero i x y width pixels fb = fb
raw_pixels pf (suc n) i x y width pixels fb =
    raw_pixels pf n (i + 1) x y width (drop (bytes_per_pixel pf) pixels) (
      put_pixel fb (bits_i32 (x + i % width)) (bits_i32 (y + i / width))
        (unpack pf (take (bytes_per_pixel pf) pixels)))

-- The colour of a subrectangle, and any other that is taken if a flag is set.
abbrev pub colour_if : PixelFormat → Bytes → Bool → Bytes → ℕ → Decoded (Bytes × ℕ)
colour_if pf payload given colour at =
    if given
    then and_then (take_bytes payload (bytes_per_pixel pf) at) (λ r. decoded (unpack pf r.0, r.1))
    else decoded (colour, at)

-- The test and the fill of a subrectangle.
abbrev pub paint_subrect :
    Framebuffer → I32 → I32 → ℕ → ℕ → Bytes → ℕ → ℕ → ℕ → Decoded (Framebuffer × ℕ)
paint_subrect fb x y width height colour position size at =
    if ltb width (position / 16 + (size / 16 + 1)) || ltb height (position % 16 + (size % 16 + 1))
    then malformed
    else decoded (
      fill fb
          (Rect.new (x + position / 16) (y + position % 16) (i32 (size / 16 + 1))
            (i32 (size % 16 + 1)))
          colour,
      at,
    )

abbrev pub one_subrect :
    PixelFormat
    → Bytes
    → Bool
    → Bytes
    → I32
    → I32
    → ℕ
    → ℕ
    → Framebuffer × ℕ
    → Decoded (Framebuffer × ℕ)
one_subrect pf payload coloured foreground x y width height s =
    and_then (colour_if pf payload coloured foreground s.1) (λ c.
      and_then (byte payload c.1) (λ p.
        and_then (byte payload p.1) (λ z. paint_subrect s.0 x y width height c.0 p.0 z.0 z.1)))

-- `for _ in 0..count`
unfoldable pub subrects :
    ℕ
    → PixelFormat
    → Bytes
    → Bool
    → Bytes
    → I32
    → I32
    → ℕ
    → ℕ
    → Framebuffer × ℕ
    → Decoded (Framebuffer × ℕ)
unfolding and_then unpack byte take_bytes
subrects zero pf payload coloured foreground x y width height s = decoded s
subrects (suc n) pf payload coloured foreground x y width height s =
    and_then (one_subrect pf payload coloured foreground x y width height s)
      (λ s'. subrects n pf payload coloured foreground x y width height s')

-- The picture, the two colours that carry over, and the place in the payload.
pub record Tiles : Type 0 where
  pub fb : Framebuffer
  pub background : Bytes
  pub foreground : Bytes
  pub at : ℕ

-- A bit of the head of a tile.
abbrev pub head_has : ℕ → ℕ → Bool
head_has head bit = head / bit % 2 == 1

abbrev pub raw_tile : PixelFormat → Bytes → I32 → I32 → ℕ → ℕ → Tiles → Decoded Tiles
raw_tile pf payload x y width height t =
    and_then (take_bytes payload (width * height * bytes_per_pixel pf) t.at) (λ r.
      decoded (record t {
        fb = raw_pixels pf (length r.0 / bytes_per_pixel pf) 0 x y width r.0 t.fb;
        at = r.1;
      }))

-- The subrectangles of a tile, once it is filled.
abbrev pub inked_tile : PixelFormat → Bytes → ℕ → I32 → I32 → ℕ → ℕ → Tiles → Decoded Tiles
inked_tile pf payload head x y width height t =
    if not (head_has head 8)
    then decoded t
    else and_then (byte payload t.at) (λ c.
      and_then
        (subrects c.0 pf payload (head_has head 16) t.foreground x y width height (t.fb, c.1))
        (λ s. decoded (record t { fb = s.0; at = s.1 })))

abbrev pub described_tile : PixelFormat → Bytes → ℕ → I32 → I32 → ℕ → ℕ → Tiles → Decoded Tiles
described_tile pf payload head x y width height t =
    and_then (colour_if pf payload (head_has head 2) t.background t.at) (λ b.
      and_then (colour_if pf payload (head_has head 4) t.foreground b.1) (λ f.
        inked_tile pf payload head x y width height (record {
          fb = fill t.fb (Rect.new x y (i32 width) (i32 height)) b.0;
          background = b.0;
          foreground = f.0;
          at = f.1;
        })))

unfoldable pub decode_tile : PixelFormat → Bytes → I32 → I32 → ℕ → ℕ → Tiles → Decoded Tiles
unfolding and_then byte take_bytes raw_pixels subrects
decode_tile pf payload x y width height t = and_then (byte payload t.at) (λ h.
    if head_has h.0 1
    then raw_tile pf payload x y width height (record t { at = h.1 })
    else described_tile pf payload h.0 x y width height (record t { at = h.1 }))

-- `while x < rect.x2`, with the tiles that are left.
unfoldable pub decode_across :
    ℕ → PixelFormat → Bytes → Rect → I32 → I32 → ℕ → Tiles → Decoded Tiles
unfolding decode_tile
decode_across zero pf payload rect x y height t = decoded t
decode_across (suc n) pf payload rect x y height t =
    and_then (decode_tile pf payload x y (min side (rect.x2 - x)) height t)
      (λ t'. decode_across n pf payload rect (x + side) y height t')

-- `while y < rect.y2`, with the rows of tiles that are left.
unfoldable pub decode_down : ℕ → PixelFormat → Bytes → Rect → I32 → Tiles → Decoded Tiles
unfolding decode_across
decode_down zero pf payload rect y t = decoded t
decode_down (suc n) pf payload rect y t =
    and_then
      (decode_across ((rect.x2 - rect.x1 + (side - 1)) / side) pf payload rect rect.x1 y
        (min side (rect.y2 - y)) t)
      (λ t'. decode_down n pf payload rect (y + side) t')

-- The picture, and the bytes that were used.
unfoldable pub hextile : Bytes → Rect → PixelFormat → Framebuffer → Decoded (Framebuffer × ℕ)
unfolding decode_down
hextile payload rect pf fb =
    and_then
      (decode_down ((rect.y2 - rect.y1 + (side - 1)) / side) pf payload rect rect.y1 (record {
        fb = fb;
        background = 0 ∷ 0 ∷ 0 ∷ 0 ∷ [];
        foreground = 0 ∷ 0 ∷ 0 ∷ 0 ∷ [];
        at = 0;
      }))
      (λ t. decoded (t.fb, t.at))
