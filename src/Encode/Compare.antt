-- ===== src/Encode/Compare.antt =====
-- crates/alloyvnc-encode/src/compare.rs: what a frame really changed, told by a hash for each row
-- of each column of 64 pixels. The hash (xxh3) is a parameter, and so is `winner`: a `HashMap` is
-- gone through in no fixed order, so which of several best shifts is taken is not known. The bit
-- for each cell is a list of Booleans. The products of a column and 64 stay inside an `i32`, as a
-- picture is narrower than that.
pub mod Detect
pub mod Tighten
pub mod Spans
pub mod Cells
pub mod Marking
pub mod Loops
pub mod Passes
pub mod Regions
pub mod Snapshot
pub mod Shifts
pub mod Covers
pub mod Reported
pub mod Found
pub mod Again
mod Tests
use alloyvnc.Base.{
  ℕ, zero, suc, ◌+◌, ◌-◌, ◌*◌, ◌/◌, ◌%◌, min, max, Bool, true, false, not, ◌&&◌, ◌||◌, Option, none,
  some, List, [], ◌∷◌, ◌++◌, take, drop, length, get_or, set_at, replicate, is_nil, ltb, leb, ◌==◌,
  if◌then◌else◌,
}
use alloyvnc.Base.Words.{I32, i32, bias, bits_i32, add_i32, sub_i32, u64_mod}
use alloyvnc.Region.Rect
use alloyvnc.Region.Rect.{Rect, Move}
use alloyvnc.Region.Spans.{Span}
use alloyvnc.Region.Bands
use alloyvnc.Region.Bands.{Region}
use alloyvnc.Region.Bands.Rows.{Row, from_rows}
use alloyvnc.Proto.Wire.{Bytes}
use alloyvnc.Encode.Framebuffer
use alloyvnc.Encode.Framebuffer.{Framebuffer, row_span}

abbrev pub segment : ℕ
segment = 64

abbrev pub min_run : ℕ
min_run = 8

abbrev pub min_votes : ℕ
min_votes = 8

abbrev pub probes : ℕ
probes = 16

abbrev pub unknown : ℕ
unknown = u64_mod - 1

pub record Tightened : Type 0 where
  pub damage : Region
  pub moves : List Move

pub record Tightener : Type 0 where
  pub size : ℕ × ℕ
  pub cols : ℕ
  pub hashes : List ℕ
  pub changed : List Bool
  pub before : List ℕ

-- `div_ceil`
abbrev pub div_ceil : ℕ → ℕ → ℕ
div_ceil n by = (n + (by - 1)) / by

abbrev pub new : Tightener
new = record { size = (0, 0); cols = 0; hashes = []; changed = []; before = [] }

unfoldable pub reset : Tightener → ℕ × ℕ → Tightener
reset t size = record {
  size = size;
  cols = div_ceil size.0 segment;
  hashes = replicate (div_ceil size.0 segment * size.1) unknown;
  changed = replicate (div_ceil size.0 segment * size.1) false;
  before = [];
}

-- `/` on `i32`, which rounds towards zero, by a number that is not 0.
abbrev pub div_i32 : I32 → ℕ → I32
div_i32 a n = if leb bias a then bias + (a - bias) / n else bias - (bias - a) / n

-- `as usize` of an `i32`
abbrev pub usize : I32 → ℕ
usize a = if leb bias a then a - bias else u64_mod - (bias - a)

-- The first and last column of a `Range`; it is empty if they are the same.
abbrev pub Columns : Type 0
Columns = ℕ × ℕ

unfoldable pub columns : Tightener → Rect → Columns
columns t r =
    if Rect.is_empty r
    then (0, 0)
    else (let first = usize (max (div_i32 r.x1 segment) bias) in
        let last = min (usize (div_i32 (add_i32 r.x2 (i32 (segment - 1))) segment)) t.cols in
        (first, max last first))

abbrev pub cell_of : Tightener → I32 → ℕ → ℕ
cell_of t y c = bits_i32 y * t.cols + c

abbrev pub is_changed : Tightener → I32 → ℕ → Bool
is_changed t y c = get_or t.changed (cell_of t y c) false

module _ (hash : Bytes → ℕ) (fb : Framebuffer) where
  abbrev pub hash_of : Tightener → I32 → ℕ → ℕ
  hash_of t y c =
      hash (row_span fb (bits_i32 y) (c * segment) (min segment (t.size.0 - c * segment)))

  unfoldable pub rehash : Tightener → I32 → ℕ → Tightener × Bool
  rehash t y c = if leb t.size.0 (c * segment) then (t, false) else (
    record t { hashes = set_at (cell_of t y c) (hash_of t y c) t.hashes },
    not (get_or t.hashes (cell_of t y c) unknown == hash_of t y c),
  )

  -- The body of the loops over the damage.
  unfoldable pub mark : I32 → ℕ → Tightener → Tightener
  unfolding rehash
  mark y c t =
      let (t', moved) = rehash t y c in
      if moved then record t' { changed = set_at (cell_of t' y c) true t'.changed } else t'

-- `for c in ..`, with the columns that are left, and the body of the loop.
unfoldable pub each_cell : (I32 → ℕ → Tightener → Tightener) → ℕ → ℕ → I32 → Tightener → Tightener
each_cell body zero c y t = t
each_cell body (suc n) c y t = each_cell body n (c + 1) y (body y c t)

-- `for y in ..`, with the rows that are left.
unfoldable pub each_row : (I32 → ℕ → Tightener → Tightener) → ℕ → I32 → Rect → Tightener → Tightener
unfolding each_cell columns
each_row body zero y r t = t
each_row body (suc n) y r t =
    let (first, end) = columns t r in
    each_row body n (y + 1) r (each_cell body (end - first) first y t)

-- The cells of a rectangle, as far as the picture goes.
unfoldable pub each_in :
    Framebuffer → (I32 → ℕ → Tightener → Tightener) → Rect → Tightener → Tightener
unfolding each_row
each_in fb body rect t =
    let r = Rect.intersection rect (Framebuffer.bounds fb) in
    if Rect.is_empty r then t else each_row body (r.y2 - r.y1) r.y1 r t

-- `for rect in ..`
unfoldable pub each_rect :
    Framebuffer → (I32 → ℕ → Tightener → Tightener) → List Rect → Tightener → Tightener
unfolding each_in
each_rect fb body [] t = t
each_rect fb body (r ∷ rs) t = each_rect fb body rs (each_in fb body r t)

module _ (hash : Bytes → ℕ) (fb : Framebuffer) where
  -- The body of the loops of `follow`.
  abbrev pub touch : I32 → ℕ → Tightener → Tightener
  touch y c t = (rehash hash fb t y c).0

  unfoldable pub follow : Move → Tightener → Tightener
  unfolding each_in rehash
  follow m t = each_in fb touch m.dst t

  unfoldable pub follow_all : List Move → Tightener → Tightener
  unfolding follow
  follow_all [] t = t
  follow_all (m ∷ ms) t = follow_all ms (follow m t)

  unfoldable pub mark_all : List Rect → Tightener → Tightener
  unfolding each_rect mark
  mark_all rects t = each_rect fb (mark hash fb) rects t

-- The hashes of the columns of a row, as they are and as they were.
abbrev pub now : Tightener → Columns → I32 → List ℕ
now t span row = take (span.1 - span.0) (drop (cell_of t row span.0) t.hashes)

abbrev pub was : Tightener → Rect → Columns → I32 → List ℕ
was t bounds span row =
    let width = span.1 - span.0 in take width (drop ((row - bounds.y1) * width) t.before)

unfoldable pub snapshot_rows : ℕ → I32 → Columns → Tightener → List ℕ
snapshot_rows zero y span t = []
snapshot_rows (suc n) y span t = now t span y ++ snapshot_rows n (y + 1) span t

abbrev pub snapshot : Rect → Columns → Tightener → Tightener
snapshot bounds span t = record t {
  before = snapshot_rows (bounds.y2 - bounds.y1) bounds.y1 span t;
}

-- The spans of a row whose columns are on: `open` is where one began.
unfoldable pub spans_from : (ℕ → Bool) → ℕ → ℕ → ℕ → Option I32 → List Span
spans_from on width zero c none = []
spans_from on width zero c (some x1) = (x1, min (i32 (c * segment)) (i32 width)) ∷ []
spans_from on width (suc n) c none =
    spans_from on width n (c + 1) (if on c then some (i32 (c * segment)) else none)
spans_from on width (suc n) c (some x1) =
    let longer = spans_from on width n (c + 1) (some x1) in
    let closed = spans_from on width n (c + 1) none in
    if on c then longer else (x1, min (i32 (c * segment)) (i32 width)) ∷ closed

-- The rows that have spans.
unfoldable pub rows_from : (I32 → List Span) → ℕ → I32 → List Row
rows_from spans zero y = []
rows_from spans (suc n) y =
    let rest = rows_from spans n (y + 1) in if is_nil (spans y) then rest else (y, spans y) ∷ rest

abbrev pub changed_spans : Tightener → Columns → I32 → List Span
changed_spans t span y = spans_from (λ c. is_changed t y c) t.size.0 (span.1 - span.0) span.0 none

unfoldable pub region : Tightener → Rect → Columns → Region
unfolding spans_from rows_from
region t bounds span =
    from_rows (rows_from (changed_spans t span) (bounds.y2 - bounds.y1) bounds.y1)
