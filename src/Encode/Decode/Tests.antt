-- ===== src/Encode/Decode/Tests.antt =====
-- A tile of one colour with a block on it, decoded.
use alloyvnc.Base.{◌+◌, ◌-◌, ◌*◌, ◌/◌, ◌≤◌, ◌≡◌, refl, [], ◌∷◌, length}
use alloyvnc.Base.Words.{i32}
use alloyvnc.Region.Rect
use alloyvnc.Region.Rect.{Rect}
use alloyvnc.Proto.Wire.{Bytes}
use alloyvnc.Proto.PixelFormat.{bgrx32, bytes_per_pixel}
use alloyvnc.Encode.Blocks.{fill}
use alloyvnc.Encode.Framebuffer
use alloyvnc.Encode.Framebuffer.{Framebuffer, new}
use alloyvnc.Encode.Hextile.{side}
use alloyvnc.Encode.Decode.{decoded, hextile}
use alloyvnc.Encode.Decode.Place.{hextile_lem}

abbrev two_by_one : Rect
two_by_one = record { x1 = i32 0; y1 = i32 0; x2 = i32 2; y2 = i32 1 }

-- Background and foreground, and one subrectangle at the second pixel.
abbrev told : Bytes
told = 14 ∷ 1 ∷ 1 ∷ 1 ∷ 0 ∷ 9 ∷ 8 ∷ 7 ∷ 0 ∷ 1 ∷ 16 ∷ 0 ∷ 255 ∷ []

abbrev painted : Framebuffer
painted = record { width = 2; height = 1; pixels = 1 ∷ 1 ∷ 1 ∷ 0 ∷ 9 ∷ 8 ∷ 7 ∷ 0 ∷ [] }

second_pixel : hextile told two_by_one bgrx32 (new 2 1) ≡ decoded (painted, 12)
unfolding hextile new Rect.new Rect.is_empty Rect.intersection Rect.width Framebuffer.bounds
    bytes_per_pixel fill
second_pixel = refl

hextile_lem_example :
    ((i32 1 - i32 0 + (side - 1)) / side * ((i32 2 - i32 0 + (side - 1)) / side) ≤ 12)
    × (12 ≤ length told)
hextile_lem_example = hextile_lem told two_by_one bgrx32 (new 2 1) painted 12 second_pixel
