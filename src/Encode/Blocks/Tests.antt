-- ===== src/Encode/Blocks/Tests.antt =====
-- A block that is moved down over itself.
use alloyvnc.Base.{◌+◌, ◌-◌, ◌*◌, ◌/◌, ◌%◌, ◌≡◌, refl, some, [], ◌∷◌, get_or, arith, if◌then◌else◌}
use alloyvnc.Base.Words.{i32, bias}
use alloyvnc.Region.Rect
use alloyvnc.Region.Rect.{Rect}
use alloyvnc.Encode.Framebuffer
use alloyvnc.Encode.Framebuffer.{Framebuffer, stride}
use alloyvnc.Encode.Lengths.{Fits}
use alloyvnc.Encode.Blocks.{fill, blit, copy_within}
use alloyvnc.Encode.Blocks.Stretches.{byte_at}
use alloyvnc.Encode.Blocks.Copies.{copy_within_lem}
use alloyvnc.Encode.Blocks.Fills.{fill_lem}

abbrev tall : Framebuffer
tall = record { width = 1; height = 3; pixels = 1 ∷ 1 ∷ 1 ∷ 0 ∷ 2 ∷ 2 ∷ 2 ∷ 0 ∷ 3 ∷ 3 ∷ 3 ∷ 0 ∷ [] }

tall-Fits : Fits tall
tall-Fits = record { narrow = omega arith; low = omega arith; whole = refl }

abbrev lower : Rect
lower = record { x1 = i32 0; y1 = i32 1; x2 = i32 1; y2 = i32 3 }

moved_down :
    copy_within tall 0 0 lower
    ≡ some (record tall { pixels = 1 ∷ 1 ∷ 1 ∷ 0 ∷ 1 ∷ 1 ∷ 1 ∷ 0 ∷ 2 ∷ 2 ∷ 2 ∷ 0 ∷ [] })
unfolding copy_within Rect.is_empty Rect.intersection Rect.contains Rect.new Rect.width Rect.height
    Framebuffer.bounds
moved_down = refl

filled :
    fill tall lower (7 ∷ 8 ∷ 9 ∷ 0 ∷ [])
    ≡ record tall { pixels = 1 ∷ 1 ∷ 1 ∷ 0 ∷ 7 ∷ 8 ∷ 9 ∷ 0 ∷ 7 ∷ 8 ∷ 9 ∷ 0 ∷ [] }
unfolding fill Rect.is_empty Rect.intersection Rect.width Framebuffer.bounds Rect.new
filled = refl

brought :
    blit tall 0 1 1 1 (5 ∷ 5 ∷ 5 ∷ 0 ∷ [])
    ≡ some (record tall { pixels = 1 ∷ 1 ∷ 1 ∷ 0 ∷ 5 ∷ 5 ∷ 5 ∷ 0 ∷ 3 ∷ 3 ∷ 3 ∷ 0 ∷ [] })
unfolding blit
brought = refl

copy_within_lem_example :
    (out : Framebuffer) × ((copy_within tall 0 0 lower ≡ some out)
      × (byte_at out.pixels (stride tall) (i32 1 - bias + 1) ((i32 0 - bias) * 4 + 2)
          ≡ byte_at tall.pixels (stride tall) (0 + 1) (0 * 4 + 2)))
unfolding Rect.intersection Framebuffer.bounds Rect.new Rect.is_empty
copy_within_lem_example =
    copy_within_lem tall 0 0 lower tall-Fits (omega arith) (omega arith) refl (omega arith)
      (omega arith) 1 2 (omega arith) (omega arith)

fill_lem_example : byte_at (fill tall lower (7 ∷ 8 ∷ 9 ∷ 0 ∷ [])).pixels (stride tall) 2 1 ≡ (
    if Rect.contains_point lower (bias + 1 / 4) (bias + 2)
    then get_or (7 ∷ 8 ∷ 9 ∷ 0 ∷ []) (1 % 4) 0
    else byte_at tall.pixels (stride tall) 2 1)
fill_lem_example =
    fill_lem tall lower (7 ∷ 8 ∷ 9 ∷ 0 ∷ []) 2 1 tall-Fits refl (omega arith) (omega arith)
