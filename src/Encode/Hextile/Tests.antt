-- ===== src/Encode/Hextile/Tests.antt =====
-- A small tile with a block of ink, and the theorems at it.
use alloyvnc.Base.{
  ◌+◌, ◌-◌, ◌*◌, ◌≤◌, ◌≡◌, refl, inr, none, [], ◌∷◌, length, get_or, not, true, ◌==◌, arith,
}
use alloyvnc.Base.Words.{i32}
use alloyvnc.Region.Rect.{Rect}
use alloyvnc.Proto.PixelFormat.{bgrx32, bytes_per_pixel}
use alloyvnc.Encode.Framebuffer.{Framebuffer}
use alloyvnc.Encode.Lengths.{Fits}
use alloyvnc.Encode.Hextile.{Hextile, new, runs, tile, read}
use alloyvnc.Encode.Hextile.Runs.{runs_lem}
use alloyvnc.Encode.Hextile.Places.{inked, only_in}
use alloyvnc.Encode.Hextile.Read.{TileOf, tile-read-length}

-- Four by three, with a block of 5 and a dot of 6 on 1.
abbrev sketch : Hextile
sketch = record new {
  keys = 1 ∷ 5 ∷ 5 ∷ 1 ∷ 1 ∷ 5 ∷ 5 ∷ 6 ∷ 1 ∷ 1 ∷ 1 ∷ 1 ∷ [];
  width = 4;
  height = 3;
}

two_blocks :
    (runs 1 sketch).subrects
    ≡ record { x = 1; y = 0; w = 2; h = 2; colour = 5 }
      ∷ record { x = 3; y = 1; w = 1; h = 1; colour = 6 }
      ∷ []
unfolding runs
two_blocks = refl

runs_lem_example :
    (inked 2 1 (runs 1 sketch).subrects ≡ not (get_or sketch.keys (1 * 4 + 2) 1 == 1))
    × (only_in (get_or sketch.keys (1 * 4 + 2) 1) 2 1 (runs 1 sketch).subrects ≡ true)
runs_lem_example = runs_lem 1 2 1 sketch (omega arith) (omega arith) (omega arith)

abbrev two_pixels : Framebuffer
two_pixels = record { width = 2; height = 1; pixels = 1 ∷ 2 ∷ 3 ∷ 0 ∷ 1 ∷ 2 ∷ 3 ∷ 0 ∷ [] }

abbrev both : Rect
both = record { x1 = i32 0; y1 = i32 0; x2 = i32 2; y2 = i32 1 }

both-TileOf : TileOf two_pixels both
both-TileOf = record {
  left = omega arith;
  across = omega arith;
  right = omega arith;
  top = omega arith;
  down = omega arith;
  bottom = omega arith;
}

two_pixels-Fits : Fits two_pixels
two_pixels-Fits = record { narrow = omega arith; low = omega arith; whole = refl }

tile-read-length_example :
    length
      (tile
        (bytes_per_pixel bgrx32)
        none
        none
        (read two_pixels both bgrx32 (bytes_per_pixel bgrx32) new)).out
    ≤ 1 + (i32 1 - i32 0) * ((i32 2 - i32 0) * bytes_per_pixel bgrx32)
tile-read-length_example =
    tile-read-length two_pixels both bgrx32 new two_pixels-Fits (inr (inr refl)) both-TileOf none
      none
