-- ===== src/Encode/Compare/Detect.antt =====
-- `detect` of crates/alloyvnc-encode/src/compare.rs: the vertical shift that explains the damage.
use alloyvnc.Base.{
  ℕ, zero, suc, ◌+◌, ◌-◌, min, max, Bool, false, ◌&&◌, ◌||◌, Option, none, some, List, [], ◌∷◌,
  take, length, get_or, reverse, ltb, leb, ◌==◌, if◌then◌else◌,
}
use alloyvnc.Base.Words.{I32, i32, bias, add_i32, sub_i32}
use alloyvnc.Region.Rect
use alloyvnc.Region.Rect.{Rect, Move}
use alloyvnc.Region.Spans.{Span}
use alloyvnc.Region.Bands.Rows.{from_rows}
use alloyvnc.Encode.Compare.{
  Tightener, Columns, segment, min_run, min_votes, probes, unknown, div_ceil, div_i32, usize,
  is_changed, now, was, spans_from, rows_from,
}

-- What the `HashMap` holds: each shift with its count.
abbrev pub Votes : Type 0
Votes = List (I32 × ℕ)

-- `any` over columns, with the ones that are left.
unfoldable pub any_column : ℕ → ℕ → (ℕ → Bool) → Bool
any_column zero c p = false
any_column (suc n) c p = p c || any_column n (c + 1) p

abbrev pub row_changed : Tightener → Columns → I32 → Bool
row_changed t span row = any_column (span.1 - span.0) span.0 (λ c. is_changed t row c)

unfoldable pub changed_rows : ℕ → I32 → Columns → Tightener → List I32
unfolding any_column
changed_rows zero y span t = []
changed_rows (suc n) y span t =
    let rest = changed_rows n (y + 1) span t in if row_changed t span y then y ∷ rest else rest

-- `step_by`, with the elements to skip before the next one.
unfoldable pub every : ℕ → ℕ → List I32 → List I32
every step skip [] = []
every step zero (y ∷ ys) = y ∷ every step (step - 1) ys
every step (suc skip) (y ∷ ys) = every step skip ys

abbrev pub sample : List I32 → List I32
sample changed = take probes (every (max (div_ceil (length changed) probes) 1) 0 changed)

-- `zip`, `filter` and `count`
unfoldable pub agreements : List ℕ → List ℕ → ℕ
agreements (a ∷ xs) (b ∷ ys) = (if a == b then 1 else 0) + agreements xs ys
agreements _ _ = 0

-- `*votes.entry(dy).or_default() += n`
unfoldable pub add_vote : I32 → ℕ → Votes → Votes
add_vote dy n [] = (dy, n) ∷ []
add_vote dy n ((d, k) ∷ votes) =
    let rest = add_vote dy n votes in if d == dy then (d, k + n) ∷ votes else (d, k) ∷ rest

-- One row of the old picture against every probe.
unfoldable pub vote_row : I32 → List ℕ → Tightener → Columns → List I32 → Votes → Votes
unfolding agreements add_vote
vote_row y old t span [] votes = votes
vote_row y old t span (row ∷ rows) votes = vote_row y old t span rows (
    if y == row || agreements old (now t span row) == 0
    then votes
    else add_vote (sub_i32 y row) (agreements old (now t span row)) votes)

unfoldable pub vote_rows : ℕ → I32 → Rect → Columns → Tightener → List I32 → Votes → Votes
unfolding vote_row
vote_rows zero y bounds span t rows votes = votes
vote_rows (suc n) y bounds span t rows votes =
    vote_rows n (y + 1) bounds span t rows (vote_row y (was t bounds span y) t span rows votes)

-- The columns of a row that hold what sat `dy` rows away.
abbrev pub came_from : Tightener → Rect → Columns → I32 → I32 → ℕ → Bool
came_from t bounds span dy y c =
    get_or (now t span y) (c - span.0) unknown
    == get_or (was t bounds span (add_i32 y dy)) (c - span.0) unknown

abbrev pub moved_spans : Tightener → Rect → Columns → I32 → I32 → List Span
moved_spans t bounds span dy y =
    if ltb (add_i32 y dy) bounds.y1 || leb bounds.y2 (add_i32 y dy)
    then []
    else spans_from (came_from t bounds span dy y) t.size.0 (span.1 - span.0) span.0 none

unfoldable pub any_row : ℕ → I32 → (I32 → Bool) → Bool
any_row zero y p = false
any_row (suc n) y p = p y || any_row n (y + 1) p

unfoldable pub holds_change : Tightener → Columns → Rect → Bool
unfolding any_row any_column
holds_change t span r =
    let first = max (usize (max (div_i32 r.x1 segment) bias)) span.0 in
    let last = min (usize (div_i32 (add_i32 r.x2 (i32 (segment - 1))) segment)) span.1 in
    any_row (r.y2 - r.y1) r.y1 (λ y. any_column (last - first) first (λ c. is_changed t y c))

-- `filter` and `map` over the rectangles.
unfoldable pub moves_of : Tightener → Columns → I32 → List Rect → List Move
unfolding holds_change
moves_of t span dy [] = []
moves_of t span dy (r ∷ rs) =
    let rest = moves_of t span dy rs in
    if leb (i32 min_run) (Rect.height r) && holds_change t span r
    then record { src_x = r.x1; src_y = add_i32 r.y1 dy; dst = r } ∷ rest
    else rest

unfoldable pub shifted : Tightener → Rect → Columns → I32 → List Move
unfolding moves_of rows_from
shifted t bounds span dy =
    let moves =
      moves_of t span dy
        (from_rows
          (rows_from (moved_spans t bounds span dy) (bounds.y2 - bounds.y1) bounds.y1)).rects in
    if ltb dy bias then reverse moves else moves

-- The shift that won, and how many cells it explains.
unfoldable pub won : Tightener → Rect → Columns → Option (I32 × ℕ) → List Move
unfolding shifted
won t bounds span none = []
won t bounds span (some (dy, count)) = if ltb count min_votes then [] else shifted t bounds span dy

unfoldable pub detect : (Votes → Option (I32 × ℕ)) → Tightener → Rect → Columns → List Move
unfolding changed_rows every vote_rows won
detect winner t bounds span =
    let height = bounds.y2 - bounds.y1 in
    let changed = changed_rows height bounds.y1 span t in
    if ltb (length changed) min_run
    then []
    else won t bounds span (winner (vote_rows height bounds.y1 bounds span t (sample changed) []))
