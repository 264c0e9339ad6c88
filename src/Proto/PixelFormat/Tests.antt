-- ===== src/Proto/PixelFormat/Tests.antt =====
-- The crate's own tests of a pixel format.
use alloyvnc.Base.{◌≡◌, refl, [], ◌∷◌}
use alloyvnc.Proto.Error.{ok, err, unsupported_pixel_format}
use alloyvnc.Proto.PixelFormat.{
  bgrx32, rgb565, bgr233, write, validate, validate_channel, is_power_of_two, trailing_zeros,
}

tigervnc :
    write bgrx32 ≡ 32 ∷ 24 ∷ 0 ∷ 1 ∷ 0 ∷ 255 ∷ 0 ∷ 255 ∷ 0 ∷ 255 ∷ 16 ∷ 8 ∷ 0 ∷ 0 ∷ 0 ∷ 0 ∷ []
unfolding write
tigervnc = refl

all_valid : (validate bgrx32 ≡ ok tt) × (validate rgb565 ≡ ok tt) × (validate bgr233 ≡ ok tt)
unfolding validate validate_channel is_power_of_two trailing_zeros
all_valid = (refl, refl, refl)

ragged_max :
    validate (record bgrx32 { green_max = 200 })
    ≡ err (unsupported_pixel_format "channel max is not 2^n - 1")
unfolding validate validate_channel is_power_of_two trailing_zeros
ragged_max = refl

overflow :
    validate (record bgrx32 { red_shift = 25 })
    ≡ err (unsupported_pixel_format "channel does not fit in the pixel")
unfolding validate validate_channel is_power_of_two trailing_zeros
overflow = refl
