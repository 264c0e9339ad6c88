-- ===== src/Encode/Compare/Snapshot.antt =====
-- The rows of hashes that the detector of crates/alloyvnc-encode/src/compare.rs compares: `now`,
-- `snapshot` and `was`.
use native.Mathlib.Nat.{add-mul, mul-le-mul_right, suc-mul}
use alloyvnc.Base.{
  ℕ, zero, suc, ◌+◌, ◌-◌, ◌*◌, ◌≤◌, ◌<◌, ◌≡◌, refl, ◌∙◌, ap, ◌++◌, drop, length, length-take,
  length-drop, get_or, get_or-take, get_or-drop, get_or-append, arith,
}
use alloyvnc.Base.Words.{I32, bias, bits_i32}
use alloyvnc.Region.Rect.{Rect}
use alloyvnc.Encode.Framebuffer.{Framebuffer}
use alloyvnc.Encode.Compare.{Tightener, Columns, unknown, cell_of, now, was, snapshot_rows}
use alloyvnc.Encode.Compare.Marking.{Narrow, Sized, cols_of}

-- A row and columns of the tables.
pub record RowIn (fb : Framebuffer) (t : Tightener) (span : Columns) : Type 0 where
  pub narrow : Narrow fb
  pub sized : Sized fb t
  pub ordered : span.0 ≤ span.1
  pub most : span.1 ≤ cols_of fb

row_bound : (row c cols height : ℕ) → row < height → c ≤ cols → row * cols + c ≤ cols * height
row_bound row c cols height h k =
    let above : (row + 1) * cols ≡ row * cols + 1 * cols = add-mul row 1 cols in
    let most : (row + 1) * cols ≤ height * cols = mul-le-mul_right cols (omega (arith, h)) in
    let turned : height * cols ≡ cols * height = omega arith in
    omega (arith, above, most, turned, k)

module _ (fb : Framebuffer) (t : Tightener) (span : Columns) (i : RowIn fb t span) where
  first_cell :
      (y : I32)
      → bias ≤ y
      → y < bias + fb.height
      → cell_of t y span.0 ≡ (y - bias) * cols_of fb + span.0
  first_cell y a b =
      let d = i.narrow.down in
      let row : bits_i32 y ≡ y - bias = omega (arith, a, b, d) in
      let c = i.sized.cols in rw (row, c) refl

  pub now_lem :
      (y : I32) (k : ℕ)
      → bias ≤ y
      → y < bias + fb.height
      → k < span.1 - span.0
      → get_or (now t span y) k unknown
        ≡ get_or t.hashes ((y - bias) * cols_of fb + (span.0 + k)) unknown
  now_lem y k a b h =
      get_or-take unknown (span.1 - span.0) (drop (cell_of t y span.0) t.hashes) k h
      ∙ (get_or-drop unknown (cell_of t y span.0) t.hashes k
          ∙ ap (λ j. get_or t.hashes j unknown) (at (first_cell y a b)))
    where
      at :
          cell_of t y span.0 ≡ (y - bias) * cols_of fb + span.0
          → cell_of t y span.0 + k ≡ (y - bias) * cols_of fb + (span.0 + k)
      at e = omega (arith, e)

  length-now : (y : I32) → bias ≤ y → y < bias + fb.height → length (now t span y) ≡ span.1 - span.0
  length-now y a b =
      let c = i.sized.cells in
      let o = i.ordered in
      let s = first_cell y a b in
      let r = row_bound (y - bias) span.1 (cols_of fb) fb.height (omega (arith, a, b)) i.most in
      length-take (span.1 - span.0) (drop (cell_of t y span.0) t.hashes)
        (let l = length-drop (cell_of t y span.0) t.hashes in omega (arith, l, c, s, r, o))

  snapshot_rows_lem :
      (n : ℕ) (y : I32) (j k : ℕ)
      → bias ≤ y
      → y + n ≤ bias + fb.height
      → j < n
      → k < span.1 - span.0
      → get_or (snapshot_rows n y span t) (j * (span.1 - span.0) + k) unknown
        ≡ get_or t.hashes ((y + j - bias) * cols_of fb + (span.0 + k)) unknown
  unfolding snapshot_rows
  snapshot_rows_lem zero y j k a b h g = absurd (omega (arith, h))
  snapshot_rows_lem (suc n) y zero k a b h g =
      let l = length-now y a (omega (arith, b)) in
      ap (λ e. get_or (now t span y ++ snapshot_rows n (y + 1) span t) e unknown) (zeroth k)
      ∙ ((get_or-append unknown (now t span y) (snapshot_rows n (y + 1) span t) k).0
            (omega (arith, l, g))
          ∙ (now_lem y k a (omega (arith, b)) g
              ∙ ap (λ e. get_or t.hashes ((e - bias) * cols_of fb + (span.0 + k)) unknown)
                  (same y)))
    where
      zeroth : (k : ℕ) → 0 * (span.1 - span.0) + k ≡ k
      zeroth k = omega arith

      same : (y : ℕ) → y ≡ y + 0
      same y = omega arith
  snapshot_rows_lem (suc n) y (suc j) k a b h g =
      let width : ℕ = span.1 - span.0 in
      let l = length-now y a (omega (arith, b)) in
      let step : suc j * width ≡ j * width + width = suc-mul j width in
      let at : suc j * width + k ≡ length (now t span y) + (j * width + k) =
        omega (arith, step, l) in
      let row : y + 1 + j ≡ y + suc j = omega arith in
      ap (λ e. get_or (now t span y ++ snapshot_rows n (y + 1) span t) e unknown) at
      ∙ ((get_or-append unknown (now t span y) (snapshot_rows n (y + 1) span t) (j * width + k)).1
          ∙ (snapshot_rows_lem n (y + 1) j k (omega (arith, a)) (omega (arith, b))
                (omega (arith, h)) g
              ∙ ap (λ e. get_or t.hashes ((e - bias) * cols_of fb + (span.0 + k)) unknown) row))

  -- A row of the old tables, out of a tightener that kept them.
  pub was_lem :
      (t' : Tightener) (box : Rect) (y : I32) (k : ℕ)
      → t'.before ≡ snapshot_rows (box.y2 - box.y1) box.y1 span t
      → bias ≤ box.y1
      → box.y1 + (box.y2 - box.y1) ≤ bias + fb.height
      → box.y1 ≤ y
      → y < box.y2
      → k < span.1 - span.0
      → get_or (was t' box span y) k unknown
        ≡ get_or t.hashes ((y - bias) * cols_of fb + (span.0 + k)) unknown
  was_lem t' box y k e a b c d g =
      let width : ℕ = span.1 - span.0 in
      let row : box.y1 + (y - box.y1) ≡ y = omega (arith, c) in
      get_or-take unknown width (drop ((y - box.y1) * width) t'.before) k g
      ∙ (get_or-drop unknown ((y - box.y1) * width) t'.before k
          ∙ (ap (λ l. get_or l ((y - box.y1) * width + k) unknown) e
              ∙ (snapshot_rows_lem (box.y2 - box.y1) box.y1 (y - box.y1) k a b (omega (arith, c, d))
                    g
                  ∙ ap (λ w. get_or t.hashes ((w - bias) * cols_of fb + (span.0 + k)) unknown)
                      row)))
