-- ===== src/Region/Rect.antt =====
-- `Rect` and `Move` of crates/alloyvnc-region/src/lib.rs. Coordinates are half-open; an `i32` is
-- kept as its value plus 2 ^ 31 (Base.Words).
pub mod Points
use alloyvnc.Base.{ℕ, Bool, ◌&&◌, ◌||◌, not, min, max, ltb, leb, if◌then◌else◌}
use alloyvnc.Base.Words.{I32, i32, add_i32, sub_i32}

pub record Rect : Type 0 where
  pub x1 : I32
  pub y1 : I32
  pub x2 : I32
  pub y2 : I32

abbrev pub empty : Rect
empty = record { x1 = i32 0; y1 = i32 0; x2 = i32 0; y2 = i32 0 }

unfoldable pub new : I32 → I32 → I32 → I32 → Rect
new x y width height = record { x1 = x; y1 = y; x2 = add_i32 x width; y2 = add_i32 y height }

unfoldable pub from_corners : I32 → I32 → I32 → I32 → Rect
from_corners x1 y1 x2 y2 = record { x1 = x1; y1 = y1; x2 = x2; y2 = y2 }

unfoldable pub width : Rect → I32
width r = if ltb r.x1 r.x2 then sub_i32 r.x2 r.x1 else i32 0

unfoldable pub height : Rect → I32
height r = if ltb r.y1 r.y2 then sub_i32 r.y2 r.y1 else i32 0

unfoldable pub is_empty : Rect → Bool
is_empty r = leb r.x2 r.x1 || leb r.y2 r.y1

unfoldable pub normalised : Rect → Rect
unfolding is_empty
normalised r = if is_empty r then empty else r

unfoldable pub intersection : Rect → Rect → Rect
unfolding normalised
intersection r other = normalised (record {
  x1 = max r.x1 other.x1;
  y1 = max r.y1 other.y1;
  x2 = min r.x2 other.x2;
  y2 = min r.y2 other.y2;
})

unfoldable pub intersects : Rect → Rect → Bool
unfolding intersection is_empty
intersects r other = not (is_empty (intersection r other))

unfoldable pub contains : Rect → Rect → Bool
unfolding is_empty
contains r other =
    is_empty other
    || (leb r.x1 other.x1 && leb r.y1 other.y1 && leb other.x2 r.x2 && leb other.y2 r.y2)

unfoldable pub contains_point : Rect → I32 → I32 → Bool
contains_point r x y = leb r.x1 x && ltb x r.x2 && leb r.y1 y && ltb y r.y2

unfoldable pub union_bounds : Rect → Rect → Rect
unfolding is_empty normalised
union_bounds r other =
    if is_empty r then normalised other else if is_empty other then normalised r else record {
      x1 = min r.x1 other.x1;
      y1 = min r.y1 other.y1;
      x2 = max r.x2 other.x2;
      y2 = max r.y2 other.y2;
    }

unfoldable pub translate : Rect → I32 → I32 → Rect
translate r dx dy = record {
  x1 = add_i32 r.x1 dx;
  y1 = add_i32 r.y1 dy;
  x2 = add_i32 r.x2 dx;
  y2 = add_i32 r.y2 dy;
}

pub record Move : Type 0 where
  pub src_x : I32
  pub src_y : I32
  pub dst : Rect

unfoldable pub src : Move → Rect
unfolding new width height
src m = new m.src_x m.src_y (width m.dst) (height m.dst)

unfoldable pub translate_move : Move → I32 → I32 → Move
unfolding translate
translate_move m dx dy = record {
  src_x = add_i32 m.src_x dx;
  src_y = add_i32 m.src_y dy;
  dst = translate m.dst dx dy;
}
