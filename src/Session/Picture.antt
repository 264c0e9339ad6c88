-- ===== src/Session/Picture.antt =====
-- What a client sees, and what the session's `pending` and `copies` say about it
-- (crates/alloyvnc/src/session.rs). A picture is a function from points to pixels; the bytes of a
-- rectangle stand for the pixels of the screen in it.
pub mod Moves
pub mod Carried
pub mod Absorb
pub mod Update
pub mod Messages
pub mod Run
pub mod Steps
use alloyvnc.Base.{ℕ, ◌+◌, ◌-◌, ◌≤◌, ◌<◌, ◌≡◌, Bool, true, false, List, [], ◌∷◌, All, if◌then◌else◌}
use alloyvnc.Base.Words.{I32, bias, u32_mod}
use alloyvnc.Region.Rect
use alloyvnc.Region.Rect.{Rect, Move}
use alloyvnc.Region.Bands
use alloyvnc.Region.Bands.{Region, holds}
use alloyvnc.Region.Bands.Strips.{IsNormal}
use alloyvnc.Session.{Session}
use alloyvnc.Session.Frames.{involves}

abbrev pub Picture : Type 0 → Type 0
Picture Pixel = I32 → I32 → Pixel

module _ {Pixel : Type 0} where
  -- A CopyRect as the client carries it out.
  abbrev pub apply_move : Move → Picture Pixel → Picture Pixel
  apply_move m pic = λ x y.
      if Rect.contains_point m.dst x y
      then pic (x - m.dst.x1 + m.src_x) (y - m.dst.y1 + m.src_y)
      else pic x y

  -- One after the other.
  abbrev pub replay : List Move → Picture Pixel → Picture Pixel
  replay [] pic = pic
  replay (m ∷ ms) pic = replay ms (apply_move m pic)

  -- The rectangles of an update, with the screen's pixels.
  abbrev pub paint : Picture Pixel → List Rect → Picture Pixel → Picture Pixel
  paint screen rects pic = λ x y. if holds x y rects then screen x y else pic x y

-- The coordinates of a move stay inside an `i32`, and its source inside the picture.
pub record IsMove (bounds : Rect) (m : Move) : Type 0 where
  pub wide : m.dst.x2 < m.dst.x1 + bias
  pub high : m.dst.y2 < m.dst.y1 + bias
  pub right : m.src_x + (m.dst.x2 - m.dst.x1) < u32_mod
  pub bottom : m.src_y + (m.dst.y2 - m.dst.y1) < u32_mod
  pub inside : Rect.contains bounds (Rect.src m) ≡ true

-- No copy reads or writes what another one that is still to be sent writes.
abbrev pub Independent : List Move → Type 0
Independent [] = Unit
Independent (c ∷ cs) = All (λ m. involves m c ≡ false) cs × Independent cs

-- What the session believes of its client, of the points of the picture: off the pending region,
-- the client's picture with the copies carried out is the screen.
pub record Knows {Pixel : Type 0} (bounds : Rect) (client screen : Picture Pixel) (pending : Region)
    (copies : List Move) : Type 0 where
  pub agrees :
      (x y : I32)
      → Rect.contains_point bounds x y ≡ true
      → Bands.contains_point pending x y ≡ false
      → replay copies client x y ≡ screen x y
  pub normal : IsNormal pending.rects
  pub apart : Independent copies
  pub moves : All (IsMove bounds) copies
