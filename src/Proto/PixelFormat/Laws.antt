-- ===== src/Proto/PixelFormat/Laws.antt =====
-- What a pixel format on the wire means, and what `validate` lets through
-- (crates/alloyvnc-proto/src/pixel_format.rs).
use native.Mathlib.Nat.{pow-suc}
use alloyvnc.Base.{
  ℕ, zero, suc, ◌+◌, ◌*◌, ◌/◌, ◌%◌, ◌^◌, ◌≤◌, ◌<◌, ◌≡◌, refl, ◌≢◌, ◌⊎◌, Bool, true, false, ◌++◌,
  length, arith, ltb, ◌==◌,
}
use alloyvnc.Proto.Error.{ok}
use alloyvnc.Proto.Wire.{Bytes, be16_lem, to_bool, of_bool}
use alloyvnc.Proto.PixelFormat.{
  PixelFormat, wire_len, parse, write, trailing_zeros, is_power_of_two, validate_channel, validate,
}

-- Each field fits the integer that holds it in the source.
pub record InRange (pf : PixelFormat) : Type 0 where
  pub reds : pf.red_max < 2 ^ 16
  pub greens : pf.green_max < 2 ^ 16
  pub blues : pf.blue_max < 2 ^ 16

pub flag : (b : Bool) → to_bool (of_bool b) ≡ b
flag true = refl
flag false = refl

-- Every pixel format that fits its fields is read back from its sixteen bytes, whatever follows.
pub parse-write :
    (pf : PixelFormat) (rest : Bytes)
    → InRange pf
    → (parse (write pf ++ rest) ≡ ok pf) × (length (write pf) ≡ wire_len)
unfolding parse write
parse-write pf rest r =
    let long : ltb (length (write pf ++ rest)) wire_len ≡ false = ground arith in
    let flags = flag pf.big_endian in
    let colour = flag pf.true_colour in
    (
      rw (
        long,
        be16_lem pf.red_max r.reds,
        be16_lem pf.green_max r.greens,
        be16_lem pf.blue_max r.blues,
        flags,
        colour,
      ),
      refl,
    )

-- What a channel that is let through looks like: its maximum is 2 ^ bits - 1 for some bits, and the
-- bits lie inside the pixel.
pub record Fits (bpp max shift : ℕ) : Type 0 where
  pub bits : ℕ
  pub nonempty : 0 < bits
  pub full : max + 1 ≡ 2 ^ bits
  pub inside : shift + bits ≤ bpp

trailing_zeros-pow : (fuel k : ℕ) → k ≤ fuel → trailing_zeros fuel (2 ^ k) ≡ k
unfolding trailing_zeros
trailing_zeros-pow zero zero h = refl
trailing_zeros-pow zero (suc k) h = absurd (omega arith)
trailing_zeros-pow (suc fuel) zero h = refl
trailing_zeros-pow (suc fuel) (suc k) h =
    let twice : 2 ^ suc k ≡ 2 * 2 ^ k = rw pow-suc (omega arith) in
    let half : 2 ^ suc k / 2 ≡ 2 ^ k = omega arith in
    let even : (2 ^ suc k % 2 == 0) ≡ true = ground arith in
    rw (even, half, trailing_zeros-pow fuel k (omega arith)) (omega arith)

pow_pos : (bits : ℕ) → 0 < bits → 1 < 2 ^ bits
pow_pos zero h = elim h [ ]
pow_pos (suc zero) h = omega arith
pow_pos (suc (suc bits)) h = rw pow-suc (omega (arith, pow_pos (suc bits) (omega arith)))

some_bits : (bits n : ℕ) → n ≢ 0 → 2 ^ bits ≡ n + 1 → 0 < bits
some_bits zero n h e = absurd (h (omega arith))
some_bits (suc bits) n h e = omega arith

validate_channel-Fits :
    (bpp max shift : ℕ) → validate_channel bpp max shift ≡ ok tt → Fits bpp max shift
unfolding validate_channel is_power_of_two
validate_channel-Fits bpp max shift h = record {
  bits = trailing_zeros 32 (max + 1);
  nonempty = some_bits (trailing_zeros 32 (max + 1)) max (ground arith) (ground arith);
  full = ground arith;
  inside = ground arith;
}

Fits-validate_channel :
    (bpp max shift : ℕ) → bpp ≤ 32 → Fits bpp max shift → validate_channel bpp max shift ≡ ok tt
unfolding validate_channel is_power_of_two
Fits-validate_channel bpp max shift le f =
    let tz = trailing_zeros-pow 32 f.bits (omega (arith, f.inside)) in
    let power : is_power_of_two (max + 1) ≡ true =
      rw (f.full, tz, is_power_of_two) (ground arith) in
    let positive = pow_pos f.bits f.nonempty in
    rw (power, f.full, tz) (ground (arith, f.full, f.inside))

-- A pixel format passes exactly if it is a true-colour format of 8, 16 or 32 bits per pixel, no
-- deeper than that, whose three channels each have a maximum of 2 ^ bits - 1 with at least one bit
-- and lie inside the pixel.
pub validate_lem :
    (pf : PixelFormat)
    → (validate pf ≡ ok tt
        → (pf.true_colour ≡ true)
          × ((pf.bits_per_pixel ≡ 8) ⊎ ((pf.bits_per_pixel ≡ 16) ⊎ (pf.bits_per_pixel ≡ 32)))
          × (pf.depth ≤ pf.bits_per_pixel)
          × Fits pf.bits_per_pixel pf.red_max pf.red_shift
          × Fits pf.bits_per_pixel pf.green_max pf.green_shift
          × Fits pf.bits_per_pixel pf.blue_max pf.blue_shift)
      × ((pf.true_colour ≡ true)
          → (pf.bits_per_pixel ≡ 8) ⊎ ((pf.bits_per_pixel ≡ 16) ⊎ (pf.bits_per_pixel ≡ 32))
          → pf.depth ≤ pf.bits_per_pixel
          → Fits pf.bits_per_pixel pf.red_max pf.red_shift
          → Fits pf.bits_per_pixel pf.green_max pf.green_shift
          → Fits pf.bits_per_pixel pf.blue_max pf.blue_shift
          → validate pf ≡ ok tt)
unfolding validate
validate_lem pf = (
  λ h.
      let red : validate_channel pf.bits_per_pixel pf.red_max pf.red_shift ≡ ok tt = ground arith in
      let green : validate_channel pf.bits_per_pixel pf.green_max pf.green_shift ≡ ok tt =
        ground arith in
      let blue : validate_channel pf.bits_per_pixel pf.blue_max pf.blue_shift ≡ ok tt =
        ground arith in
      (
        ground arith,
        ground arith,
        ground arith,
        validate_channel-Fits pf.bits_per_pixel pf.red_max pf.red_shift red,
        validate_channel-Fits pf.bits_per_pixel pf.green_max pf.green_shift green,
        validate_channel-Fits pf.bits_per_pixel pf.blue_max pf.blue_shift blue,
      ),
  λ colour bits deep r g b.
      let le : pf.bits_per_pixel ≤ 32 = ground arith in
      ground (
        arith,
        Fits-validate_channel pf.bits_per_pixel pf.red_max pf.red_shift le r,
        Fits-validate_channel pf.bits_per_pixel pf.green_max pf.green_shift le g,
        Fits-validate_channel pf.bits_per_pixel pf.blue_max pf.blue_shift le b,
      ),
)
