-- ===== src/Encode/Hextile.antt =====
-- crates/alloyvnc-encode/src/hextile.rs: a rectangle in tiles of 16 by 16 pixels, each described by
-- a background and rectangles of other colours, or sent as it is. Coordinates inside a tile are
-- numbers from 0 to 15. The encoder appends to a buffer; here each step gives the bytes that it
-- appends.
pub mod Places
pub mod Runs
pub mod Lengths
pub mod Read
mod Tests
use Prim.Native.Nat.{bit_or}
use alloyvnc.Base.{
  ℕ, zero, suc, ◌+◌, ◌-◌, ◌*◌, ◌/◌, ◌%◌, min, Bool, true, false, not, ◌&&◌, Option, none, some,
  List, [], ◌∷◌, ◌++◌, map, take, drop, length, get_or, ltb, leb, ◌==◌, if◌then◌else◌,
}
use alloyvnc.Base.Words.{I32, i32, u8_mod, u32_mod, bits_i32}
use alloyvnc.Region.Rect
use alloyvnc.Region.Rect.{Rect}
use alloyvnc.Proto.Wire.{Bytes}
use alloyvnc.Proto.PixelFormat.{PixelFormat, bytes_per_pixel}
use alloyvnc.Encode.Framebuffer.{Framebuffer, row_span}
use alloyvnc.Encode.Convert.{convert_row, le32}

abbrev pub side : ℕ
side = 16

abbrev pub too_many : ℕ
too_many = 24

abbrev pub max_subrects : ℕ
max_subrects = 255

abbrev pub raw_flag : ℕ
raw_flag = 1

abbrev pub background_flag : ℕ
background_flag = 2

abbrev pub foreground_flag : ℕ
foreground_flag = 4

abbrev pub any_subrects_flag : ℕ
any_subrects_flag = 8

abbrev pub coloured_flag : ℕ
coloured_flag = 16

pub record Subrect : Type 0 where
  pub x : ℕ
  pub y : ℕ
  pub w : ℕ
  pub h : ℕ
  pub colour : ℕ

-- A colour and how many pixels have it.
abbrev pub Count : Type 0
Count = ℕ × ℕ

pub record Hextile : Type 0 where
  pub bytes : Bytes
  pub keys : List ℕ
  pub colours : List Count
  pub subrects : List Subrect
  pub body : Bytes
  pub width : ℕ
  pub height : ℕ

abbrev pub new : Hextile
new = record {
  bytes = [];
  keys = [];
  colours = [];
  subrects = [];
  body = [];
  width = 0;
  height = 0;
}

-- `u32::from_le_bytes`, of at most four bytes.
unfoldable pub word_of : Bytes → ℕ
word_of [] = 0
word_of (b ∷ bs) = b + 256 * word_of bs

-- `chunks_exact(bpp)` and `map`, with the chunks that are left.
unfoldable pub keys_from : ℕ → ℕ → Bytes → List ℕ
unfolding word_of
keys_from bpp zero bytes = []
keys_from bpp (suc n) bytes = word_of (take bpp bytes) ∷ keys_from bpp n (drop bpp bytes)

unfoldable pub tile_bytes : ℕ → I32 → Rect → Framebuffer → PixelFormat → Bytes
tile_bytes zero y tile fb pf = []
tile_bytes (suc n) y tile fb pf =
    convert_row (row_span fb (bits_i32 y) (bits_i32 tile.x1) (bits_i32 (Rect.width tile))) pf
    ++ tile_bytes n (y + 1) tile fb pf

unfoldable pub read : Framebuffer → Rect → PixelFormat → ℕ → Hextile → Hextile
unfolding tile_bytes keys_from
read fb tile pf bpp h =
    let bytes : Bytes = tile_bytes (tile.y2 - tile.y1) tile.y1 tile fb pf in
    record h {
      bytes = bytes;
      keys = keys_from bpp (length bytes / bpp) bytes;
      width = bits_i32 (Rect.width tile);
      height = bits_i32 (Rect.height tile);
    }

-- `iter_mut().find` and `*count += 1`
unfoldable pub bump : ℕ → List Count → Option (List Count)
bump key [] = none
bump key ((c, n) ∷ counts) =
    let rest = bump key counts in
    if c == key
    then some ((c, n + 1) ∷ counts)
    else elim rest [ none ↦ none | some later ↦ some ((c, n) ∷ later) ]

-- One key; none if there are too many colours.
unfoldable pub count_key : ℕ → List Count → Option (List Count)
unfolding bump
count_key key counts = elim (bump key counts) [
  | some known ↦ some known
  | none ↦ if length counts == too_many then none else some (counts ++ (key, 1) ∷ [])
]

unfoldable pub count_keys : List ℕ → List Count → List Count
unfolding count_key
count_keys [] counts = counts
count_keys (key ∷ keys) counts = elim (count_key key counts) [
  | none ↦ []
  | some more ↦ count_keys keys more
]

unfoldable pub count_colours : Hextile → Hextile
unfolding count_keys
count_colours h = record h { colours = count_keys h.keys [] }

-- `max_by_key`, which takes the last of equal ones.
unfoldable pub commonest : Count → List Count → Count
commonest best [] = best
commonest best (c ∷ counts) = commonest (if leb best.1 c.1 then c else best) counts

-- `find(|c| *c != bg)`
unfoldable pub other_than : ℕ → List Count → Option ℕ
other_than bg [] = none
other_than bg ((c, n) ∷ counts) =
    let rest = other_than bg counts in if c == bg then rest else some c

-- The test of `rev().find`, for a run of row `y`.
abbrev pub ends_above : ℕ → ℕ → ℕ → ℕ → Subrect → Bool
ends_above x w colour y s = s.x == x && (s.w == w && (s.colour == colour && s.y + s.h == y))

-- `above.h += 1`, for the last of those that end just above.
unfoldable pub grow : ℕ → ℕ → ℕ → ℕ → List Subrect → Option (List Subrect)
grow x w colour y [] = none
grow x w colour y (s ∷ subs) = elim (grow x w colour y subs) [
  | some later ↦ some (s ∷ later)
  | none ↦ if ends_above x w colour y s then some (record s { h = s.h + 1 } ∷ subs) else none
]

unfoldable pub place : ℕ → ℕ → ℕ → ℕ → List Subrect → List Subrect
unfolding grow
place x w colour y subs = elim (grow x w colour y subs) [
  | some grown ↦ grown
  | none ↦ subs ++ record { x = x; y = y; w = w; h = 1; colour = colour } ∷ []
]

-- The loop over the pixels of row `y` from `x` on; `open` is the run that the pixel before is in,
-- by its start and colour.
unfoldable pub row_runs : ℕ → ℕ → ℕ → Option (ℕ × ℕ) → List ℕ → List Subrect → List Subrect
unfolding place
row_runs bg y x none [] subs = subs
row_runs bg y x (some (start, colour)) [] subs = place start (x - start) colour y subs
row_runs bg y x none (key ∷ row) subs =
    row_runs bg y (x + 1) (if key == bg then none else some (x, key)) row subs
row_runs bg y x (some (start, colour)) (key ∷ row) subs =
    row_runs bg y (x + 1)
      (if key == colour then some (start, colour) else if key == bg then none else some (x, key))
      row (if key == colour then subs else place start (x - start) colour y subs)

-- `for y in 0..self.height`, with the rows that are left.
unfoldable pub rows_runs : ℕ → ℕ → ℕ → ℕ → List ℕ → List Subrect → List Subrect
unfolding row_runs
rows_runs bg width zero y keys subs = subs
rows_runs bg width (suc n) y keys subs =
    rows_runs bg width n (y + 1) keys
      (row_runs bg y 0 none (take width (drop (y * width) keys)) subs)

unfoldable pub runs : ℕ → Hextile → Hextile
unfolding rows_runs
runs bg h = record h { subrects = rows_runs bg h.width h.height 0 h.keys [] }

abbrev pub push_pixel : ℕ → ℕ → Bytes
push_pixel key bpp = take bpp (le32 key)

abbrev pub raw : Hextile → Bytes
raw h = raw_flag ∷ h.bytes

-- `!=` of two `Option`s, the second being `Some`.
abbrev pub is_new : Option ℕ → ℕ → Bool
is_new none colour = true
is_new (some c) colour = not (c == colour)

-- `<<` on a `u8`.
abbrev pub nibbles : ℕ → ℕ → ℕ
nibbles a b = bit_or (a % u8_mod * 16 % u8_mod) (b % u8_mod)

abbrev pub subrect_bytes : Bool → ℕ → Subrect → Bytes
subrect_bytes coloured bpp s =
    (if coloured then push_pixel s.colour bpp else [])
    ++ (nibbles s.x s.y ∷ nibbles (s.w - 1) (s.h - 1) ∷ [])

unfoldable pub all_subrects : Bool → ℕ → List Subrect → Bytes
all_subrects coloured bpp [] = []
all_subrects coloured bpp (s ∷ subs) =
    subrect_bytes coloured bpp s ++ all_subrects coloured bpp subs

-- The encoder, the two colours that carry over, and what was appended.
pub record Tiled : Type 0 where
  pub state : Hextile
  pub background : Option ℕ
  pub foreground : Option ℕ
  pub out : Bytes

-- A tile of one colour.
abbrev pub one_colour : ℕ → Option ℕ → Option ℕ → ℕ → Hextile → Tiled
one_colour bpp background foreground only h =
    if is_new background only
    then record {
      state = h;
      background = some only;
      foreground = foreground;
      out = background_flag ∷ push_pixel only bpp;
    }
    else record { state = h; background = background; foreground = foreground; out = 0 ∷ [] }

abbrev pub sent_raw : Option ℕ → Option ℕ → Hextile → Tiled
sent_raw background foreground h = record {
  state = h;
  background = background;
  foreground = foreground;
  out = raw h;
}

-- `if let (true, Some(fg)) = (new_fg, fg)`, and the test of `new_fg`.
abbrev pub fresh : Option ℕ → Option ℕ → Option ℕ
fresh foreground none = none
fresh foreground (some fg) = if is_new foreground fg then some fg else none

abbrev pub head_of : Bool → Option ℕ → Bool → ℕ
head_of new_bg new_fg coloured =
    bit_or
      (bit_or (bit_or any_subrects_flag (if new_bg then background_flag else 0))
        (elim new_fg [ none ↦ 0 | some fg ↦ foreground_flag ]))
      (if coloured then coloured_flag else 0)

abbrev pub fresh_bytes : ℕ → Option ℕ → Bytes
fresh_bytes bpp none = []
fresh_bytes bpp (some fg) = push_pixel fg bpp

abbrev pub body_of : ℕ → Bool → ℕ → Option ℕ → Bool → List Subrect → Bytes
body_of bpp new_bg bg new_fg coloured subs =
    (if new_bg then push_pixel bg bpp else [])
    ++ (fresh_bytes bpp new_fg ++ (length subs % u8_mod ∷ all_subrects coloured bpp subs))

abbrev pub kept_colour : Option ℕ → Option ℕ → Option ℕ
kept_colour old none = old
kept_colour old (some fg) = some fg

-- From the runs on.
unfoldable pub described : ℕ → Option ℕ → Option ℕ → ℕ → Bool → Option ℕ → ℕ → Hextile → Tiled
unfolding all_subrects
described bpp background foreground bg coloured fg raw_len h =
    let new_bg = is_new background bg in
    let new_fg : Option ℕ = fresh foreground fg in
    let body : Bytes = body_of bpp new_bg bg new_fg coloured h.subrects in
    if ltb max_subrects (length h.subrects)
    then sent_raw background foreground h
    else if ltb (length body) raw_len
    then record {
      state = record h { body = body };
      background = some bg;
      foreground = kept_colour foreground new_fg;
      out = head_of new_bg new_fg coloured ∷ body;
    }
    else sent_raw background foreground (record h { body = body })

-- With more colours than one.
abbrev pub several : ℕ → Option ℕ → Option ℕ → Count → List Count → ℕ → Hextile → Tiled
several bpp background foreground first counts raw_len h =
    let bg = (commonest first counts).0 in
    let coloured = ltb 2 (length h.colours) in
    described bpp background foreground bg coloured
      (if coloured then none else other_than bg h.colours) raw_len (runs bg h)

unfoldable pub choose : ℕ → Option ℕ → Option ℕ → List Count → ℕ → Hextile → Tiled
unfolding commonest other_than runs described
choose bpp background foreground [] raw_len h = sent_raw background foreground h
choose bpp background foreground (only ∷ []) raw_len h =
    one_colour bpp background foreground only.0 h
choose bpp background foreground (first ∷ second ∷ counts) raw_len h =
    several bpp background foreground first (second ∷ counts) raw_len h

unfoldable pub tile : ℕ → Option ℕ → Option ℕ → Hextile → Tiled
unfolding count_colours choose
tile bpp background foreground h =
    let counted : Hextile = count_colours h in
    choose bpp background foreground counted.colours (length h.keys * bpp) counted

-- `while x < rect.x2`, with the tiles that are left.
unfoldable pub tiles_across : ℕ → I32 → I32 → ℕ → Rect → Framebuffer → PixelFormat → Tiled → Tiled
unfolding read tile
tiles_across zero x y height rect fb pf t = t
tiles_across (suc n) x y height rect fb pf t =
    let bpp = bytes_per_pixel pf in
    let at : Rect = Rect.new x y (i32 (min side (rect.x2 - x))) (i32 height) in
    let done : Tiled = tile bpp t.background t.foreground (read fb at pf bpp t.state) in
    tiles_across n (x + side) y height rect fb pf (record done { out = t.out ++ done.out })

-- `while y < rect.y2`, with the rows of tiles that are left.
unfoldable pub tiles_down : ℕ → I32 → Rect → Framebuffer → PixelFormat → Tiled → Tiled
unfolding tiles_across
tiles_down zero y rect fb pf t = t
tiles_down (suc n) y rect fb pf t = tiles_down n (y + side) rect fb pf (
    tiles_across ((rect.x2 - rect.x1 + (side - 1)) / side) rect.x1 y (min side (rect.y2 - y)) rect
      fb pf t)

unfoldable pub encode : Framebuffer → Rect → PixelFormat → Hextile → Tiled
unfolding tiles_down
encode fb rect pf h =
    tiles_down ((rect.y2 - rect.y1 + (side - 1)) / side) rect.y1 rect fb pf
      (record { state = h; background = none; foreground = none; out = [] })
