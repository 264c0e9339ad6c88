-- ===== src/Encode/Compare/Shifts.antt =====
-- The moves that `detect` of crates/alloyvnc-encode/src/compare.rs finds.
use alloyvnc.Base.{
  ℕ, ◌+◌, ◌-◌, ◌*◌, ◌/◌, ◌≤◌, ◌<◌, ◌≡◌, refl, ◌∙◌, sym, ap, inl, inr, Bool, true, not, ◌&&◌, ◌||◌,
  Bool-cases, Option, none, some, List, [], ◌∷◌, All, All-reverse, length, get_or, arith, ltb, leb,
  ◌==◌,
}
use alloyvnc.Base.Words.{I32, i32, bias, u32_mod, add_i32}
use alloyvnc.Region.Rect
use alloyvnc.Region.Rect.{Rect, Move}
use alloyvnc.Region.Spans.Order.{covers, Apart}
use alloyvnc.Region.Bands.{holds, contains_point}
use alloyvnc.Region.Bands.Rows.{from_rows}
use alloyvnc.Encode.Framebuffer
use alloyvnc.Encode.Framebuffer.{Framebuffer}
use alloyvnc.Encode.Compare.{
  Tightener, Columns, unknown, min_run, min_votes, rows_from, snapshot_rows,
}
use alloyvnc.Encode.Compare.Detect.{
  Votes, came_from, moved_spans, holds_change, moves_of, shifted, won, changed_rows, sample,
  vote_rows, detect,
}
use alloyvnc.Encode.Compare.Spans.{spans_from-Apart, covers-spans_from}
use alloyvnc.Encode.Compare.Marking.{Sized, cell_at, cols_of}
use alloyvnc.Encode.Compare.Snapshot.{RowIn, now_lem, was_lem}
use alloyvnc.Encode.Compare.Regions.{ColumnsOf, rows_lem, in_bounds}

-- The pixel is in a cell whose hash is what that of the cell where the move takes it from was.
unfoldable pub copied : Framebuffer → Tightener → Tightener → Move → I32 → I32 → Bool
copied fb old t m x w =
    m.src_x == m.dst.x1
    && (Rect.contains_point (Framebuffer.bounds fb) x (w + m.src_y - m.dst.y1)
        && get_or t.hashes (cell_at fb x w) unknown
          == get_or old.hashes (cell_at fb x (w + m.src_y - m.dst.y1)) unknown)

-- The pixel is not where the move arrives, or it is copied.
unfoldable pub arrives : Framebuffer → Tightener → Tightener → I32 → I32 → Move → Bool
unfolding copied
arrives fb old t x w m = not (Rect.contains_point m.dst x w) || copied fb old t m x w

-- Every rectangle of a list is held by the list.
each_held :
    (P : Rect → Type 0) (whole : List Rect)
    → ((r : Rect) → ((x w : I32) → Rect.contains_point r x w ≡ true → holds x w whole ≡ true) → P r)
    → (rs : List Rect) → ((x w : I32) → holds x w rs ≡ true → holds x w whole ≡ true)
    → All P rs
each_held P whole f [] h = tt
each_held P whole f (r ∷ rs) h = (
  f r (λ x w k. h x w (ground (arith, k))),
  each_held P whole f rs (λ x w k. h x w (ground (arith, k))),
)

first_row :
    (r : Rect) (x w : I32) → Rect.contains_point r x w ≡ true → Rect.contains_point r x r.y1 ≡ true
unfolding Rect.contains_point
first_row r x w h = ground (arith, h)

row_order : (r : Rect) (x w : I32) → Rect.contains_point r x w ≡ true → r.y1 ≤ w
unfolding Rect.contains_point
row_order r x w h = ground (arith, h)

module _ (fb : Framebuffer) (old t : Tightener) (box : Rect) (span : Columns)
    (i : RowIn fb old span) (j : Sized fb t) (k : ColumnsOf fb box span)
    (kept : t.before ≡ snapshot_rows (box.y2 - box.y1) box.y1 span old) where
  moved_spans-Apart : (dy y : I32) → Apart 0 (moved_spans t box span dy y)
  moved_spans-Apart dy y =
      elim (Bool-cases (ltb (add_i32 y dy) box.y1 || leb box.y2 (add_i32 y dy))) [
        | inl out ↦ rw out tt
        | inr in_box ↦
            let f = k.fits in
            let o = k.ordered in
            rw in_box (
              (spans_from-Apart (came_from t box span dy y) t.size.0 span.1 (rw j.width f)
                  (span.1 - span.0) span.0 0 (omega (arith, o))).0
                (omega arith))
      ]

  -- What a row that is kept says of one of its pixels.
  record Held (dy x w : I32) : Type 0 where
    above : box.y1 ≤ add_i32 w dy
    below : add_i32 w dy < box.y2
    left : bias + span.0 * 64 ≤ x
    right : x < bias + span.1 * 64
    across : x < bias + fb.width
    same : came_from t box span dy w ((x - bias) / 64) ≡ true

  held_lem : (dy x w : I32) → covers x (moved_spans t box span dy w) ≡ true → Held dy x w
  held_lem dy x w = elim (Bool-cases (ltb (add_i32 w dy) box.y1 || leb box.y2 (add_i32 w dy))) [
    | inl out ↦ rw out (λ h. absurd (ground (arith, h)))
    | inr in_box ↦ rw in_box (λ h.
        let f = k.fits in
        let o = k.ordered in
        let wide = j.width in
        let c =
          (covers-spans_from (came_from t box span dy w) t.size.0 span.1 (rw j.width f)
            (span.1 - span.0) span.0 x (omega (arith, o))).0 in
        let a = sym c ∙ h in
        record {
          above = ground (arith, in_box);
          below = ground (arith, in_box);
          left = ground (arith, a);
          right = ground (arith, a);
          across = ground (arith, a, wide);
          same = ground (arith, a);
        })
  ]

  -- The hash of such a pixel's cell.
  same_hash :
      (dy x w : I32)
      → box.y1 ≤ w
      → w < box.y2
      → Held dy x w
      → get_or t.hashes (cell_at fb x w) unknown
        ≡ get_or old.hashes (cell_at fb x (add_i32 w dy)) unknown
  same_hash dy x w a b h =
      let c : ℕ = (x - bias) / 64 in
      let l = h.left in
      let r = h.right in
      let top = k.top in
      let bottom = k.bottom in
      let fits : c - span.0 < span.1 - span.0 = omega (arith, l, r) in
      let column : span.0 + (c - span.0) ≡ c = omega (arith, l) in
      let it : RowIn fb t span = record {
        narrow = i.narrow;
        sized = j;
        ordered = i.ordered;
        most = i.most;
      } in
      let here =
        now_lem fb t span it w (c - span.0) (omega (arith, top, a)) (omega (arith, bottom, b))
          fits in
      let there =
        was_lem fb old span i t box (add_i32 w dy) (c - span.0) kept top bottom h.above h.below
          fits in
      let same = h.same in
      ap (λ e. get_or t.hashes ((w - bias) * cols_of fb + e) unknown) (sym column)
      ∙ (sym here
          ∙ (ground (arith, same)
              ∙ (there
                  ∙ ap (λ e. get_or old.hashes ((add_i32 w dy - bias) * cols_of fb + e) unknown)
                      column)))

  -- The rows that the region of a shift is made of.
  abbrev moved_rows : I32 → List Rect
  moved_rows dy = (from_rows (rows_from (moved_spans t box span dy) (box.y2 - box.y1) box.y1)).rects

  moved_point :
      (dy x w : I32)
      → holds x w (moved_rows dy) ≡ true
      → (box.y1 ≤ w) × ((w < box.y2) × Held dy x w)
  unfolding contains_point
  moved_point dy x w h =
      let g =
        rows_lem (moved_spans t box span dy) (λ y. moved_spans-Apart dy y) (box.y2 - box.y1) box.y1
          k.low in
      let p = sym (g.points x w) ∙ h in
      (ground (arith, p), (ground (arith, p), held_lem dy x w (ground (arith, p))))

  -- A row that is shifted is as far from the first row of its rectangle as before.
  shift_lem :
      (dy y w : I32)
      → y ≤ w
      → w < u32_mod
      → bias ≤ y
      → bias ≤ add_i32 y dy
      → bias ≤ add_i32 w dy
      → w + add_i32 y dy - y ≡ add_i32 w dy
  shift_lem dy y w a b c d e = omega (arith, a, b, c, d, e)

  shifted_rect :
      (dy : I32) (r : Rect)
      → ((x w : I32) → Rect.contains_point r x w ≡ true → holds x w (moved_rows dy) ≡ true)
      → (x w : I32)
      → arrives fb old t x w (record { src_x = r.x1; src_y = add_i32 r.y1 dy; dst = r }) ≡ true
  unfolding arrives copied
  shifted_rect dy r held x w = elim (Bool-cases (Rect.contains_point r x w)) [
    | inl hit ↦
        let here = moved_point dy x w (held x w hit) in
        let first = moved_point dy x r.y1 (held x r.y1 (first_row r x w hit)) in
        let top = k.top in
        let bottom = k.bottom in
        let small = i.narrow.down in
        let rows = row_order r x w hit in
        let h1 = here.1.1.above in
        let h2 = here.1.1.below in
        let h3 = here.1.1.across in
        let row =
          shift_lem dy r.y1 w rows (let b = here.1.0 in omega (arith, b, bottom, small))
            (let b = first.0 in omega (arith, b, top))
            (let b = first.1.1.above in omega (arith, b, top)) (omega (arith, h1, top)) in
        let inb =
          in_bounds fb x (add_i32 w dy) i.narrow (let b = here.1.1.left in omega (arith, b)) h3
            (omega (arith, h1, top)) (omega (arith, h2, bottom)) in
        let same = same_hash dy x w here.0 here.1.0 here.1.1 in
        rw (hit, row, inb) (ground (arith, same))
    | inr miss ↦ rw miss refl
  ]

  moves_of-All :
      (dy x w : I32) (rs : List Rect)
      → All
          (λ r.
            arrives fb old t x w (record { src_x = r.x1; src_y = add_i32 r.y1 dy; dst = r }) ≡ true)
          rs
      → All (λ m. arrives fb old t x w m ≡ true) (moves_of t span dy rs)
  unfolding moves_of
  moves_of-All dy x w [] a = tt
  moves_of-All dy x w (r ∷ rs) a =
      let rest = moves_of-All dy x w rs a.1 in
      elim (Bool-cases (leb (i32 min_run) (Rect.height r) && holds_change t span r)) [
        | inl taken ↦ rw taken (a.0, rest)
        | inr left ↦ rw left rest
      ]

  shifted-All : (dy x w : I32) → All (λ m. arrives fb old t x w m ≡ true) (shifted t box span dy)
  unfolding shifted
  shifted-All dy x w =
      let rects =
        each_held
          (λ r.
            arrives fb old t x w (record { src_x = r.x1; src_y = add_i32 r.y1 dy; dst = r }) ≡ true)
          (moved_rows dy) (λ r h. shifted_rect dy r h x w) (moved_rows dy) (λ a b h. h) in
      let moves = moves_of-All dy x w (moved_rows dy) rects in
      elim (Bool-cases (ltb dy bias)) [
        | inl down ↦ rw down (All-reverse _ (moves_of t span dy (moved_rows dy)) moves)
        | inr up ↦ rw up moves
      ]

  won-All :
      (best : Option (I32 × ℕ)) (x w : I32)
      → All (λ m. arrives fb old t x w m ≡ true) (won t box span best)
  unfolding won
  won-All none x w = tt
  won-All (some (dy, count)) x w = elim (Bool-cases (ltb count min_votes)) [
    | inl few ↦ rw few tt
    | inr many ↦ rw many (shifted-All dy x w)
  ]

  pub detect-All :
      (winner : Votes → Option (I32 × ℕ)) (x w : I32)
      → All (λ m. arrives fb old t x w m ≡ true) (detect winner t box span)
  unfolding detect
  detect-All winner x w =
      elim (Bool-cases (ltb (length (changed_rows (box.y2 - box.y1) box.y1 span t)) min_run)) [
        | inl few ↦ rw few tt
        | inr many ↦ rw many (
            won-All
              (winner (
                vote_rows (box.y2 - box.y1) box.y1 box span t
                  (sample (changed_rows (box.y2 - box.y1) box.y1 span t)) []))
              x w)
      ]
