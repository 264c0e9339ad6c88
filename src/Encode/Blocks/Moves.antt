-- ===== src/Encode/Blocks/Moves.antt =====
-- `copy_within` of crates/alloyvnc-encode/src/framebuffer.rs: a block that is moved over itself
-- arrives as it was.
use mathlib.Core.Path.{subst}
use alloyvnc.Base.{
  ℕ, zero, suc, ◌+◌, ◌*◌, ◌≤◌, ◌<◌, ◌≡◌, ◌≢◌, refl, ◌∙◌, sym, ap, inl, inr, Bool, true, false,
  Bool-cases, take, drop, length, length-take, length-drop, get_or, get_or-take, get_or-drop, arith,
  ltb, ◌==◌,
}
use alloyvnc.Proto.Wire.{Bytes}
use alloyvnc.Encode.Blocks.{copy_bytes, row_at, copy_rows}
use alloyvnc.Encode.Blocks.Stretches.{byte_at, Stretch, row_end, write_row_lem}

module _ (line height : ℕ) where
  -- One row that is moved.
  copy_bytes_lem :
      (from to sb db n : ℕ) (buffer : Bytes)
      → length buffer ≡ height * line
      → Stretch line height from sb n
      → Stretch line height to db n
      → let out = copy_bytes (from * line + sb) n (to * line + db) buffer in
        (length out ≡ height * line)
        × (((row c : ℕ) → c < line → row ≢ to → byte_at out line row c ≡ byte_at buffer line row c)
            × ((j : ℕ) → j < n → byte_at out line to (db + j) ≡ byte_at buffer line from (sb + j)))
  unfolding copy_bytes
  copy_bytes_lem from to sb db n buffer whole s d =
      let bytes : Bytes = take n (drop (from * line + sb) buffer) in
      let last = row_end line height from sb n s in
      let left = length-drop (from * line + sb) buffer in
      let size : length bytes ≡ n =
        length-take n (drop (from * line + sb) buffer) (omega (arith, last, left, whole)) in
      let w =
        write_row_lem line height to db bytes buffer whole
          (subst (λ k. Stretch line height to db k) (sym size) d) in
      (
        w.0,
        (
          w.1.0,
          λ j h.
              w.1.1 j (omega (arith, h, size))
              ∙ (get_or-take 0 n (drop (from * line + sb) buffer) j h
                  ∙ (get_or-drop 0 (from * line + sb) buffer j
                      ∙ ap (λ k. get_or buffer k 0) (shift j))),
        ),
      )
    where
      shift : (j : ℕ) → from * line + sb + j ≡ from * line + (sb + j)
      shift j = omega arith

  -- The order in which rows are moved: each row once, and none after its source was written.
  pub record Ordered (order : ℕ → ℕ) (rows sy dy : ℕ) : Type 0 where
    pub from : (k : ℕ) → k < rows → sy + order k < height
    pub to : (k : ℕ) → k < rows → dy + order k < height
    pub once : (k m : ℕ) → k < m → m < rows → order m ≢ order k
    pub safe : (k m : ℕ) → k < m → m < rows → sy + order m ≢ dy + order k

  module _ (order : ℕ → ℕ) (rows sy dy sb db n : ℕ) (o : Ordered order rows sy dy)
      (right : sb + n ≤ line) (fits : db + n ≤ line) where
    pub copy_rows_lem :
        (left k : ℕ) (buffer : Bytes)
        → k + left ≡ rows
        → length buffer ≡ height * line
        → let out = copy_rows order left k sy sb dy db n line buffer in
          ((row c : ℕ)
            → c < line
            → ((m : ℕ) → k ≤ m → m < rows → row ≢ dy + order m)
            → byte_at out line row c ≡ byte_at buffer line row c)
          × ((m j : ℕ)
              → k ≤ m
              → m < rows
              → j < n
              → byte_at out line (dy + order m) (db + j)
                ≡ byte_at buffer line (sy + order m) (sb + j))
    unfolding copy_rows
    copy_rows_lem zero k buffer e whole =
        (λ row c h f. refl, λ m j a b h. absurd (omega (arith, e, a, b)))
    copy_rows_lem (suc left) k buffer e whole =
        let here : k < rows = omega (arith, e) in
        let out : Bytes =
          copy_bytes ((sy + order k) * line + sb) n ((dy + order k) * line + db) buffer in
        let one =
          copy_bytes_lem (sy + order k) (dy + order k) sb db n buffer whole
            (record { below = o.from k here; inside = right })
            (record { below = o.to k here; inside = fits }) in
        let rest = copy_rows_lem left (k + 1) out (omega (arith, e)) one.0 in
        (
          λ row c h f.
              rest.0 row c h (λ m a b. f m (omega (arith, a)) b)
              ∙ one.1.0 row c h (f k (omega arith) here),
          λ m j a b h. elim (Bool-cases (k == m)) [
            | inl same ↦
                let q : k ≡ m = ground (arith, same) in
                subst
                  (λ i.
                    byte_at (copy_rows order left (k + 1) sy sb dy db n line out) line
                      (dy + order i) (db + j)
                    ≡ byte_at buffer line (sy + order i) (sb + j))
                  q
                  (rest.0 (dy + order k) (db + j) (omega (arith, h, fits))
                      (λ i lo hi e'. o.once k i (omega (arith, lo)) hi (omega (arith, e')))
                    ∙ one.1.1 j h)
            | inr other ↦
                let past : k + 1 ≤ m = ground (arith, other, a) in
                rest.1 m j past b h
                ∙ one.1.0 (sy + order m) (sb + j) (omega (arith, h, right))
                    (o.safe k m (omega (arith, past)) b)
          ],
        )

  -- Downwards from the last row on, and upwards from the first.
  row_at-Ordered :
      (rows sy dy : ℕ)
      → sy + rows ≤ height
      → dy + rows ≤ height
      → Ordered (row_at (ltb sy dy) rows) rows sy dy
  row_at-Ordered rows sy dy s d = elim (Bool-cases (ltb sy dy)) [
    | inl down ↦ rw down (record {
      from = λ k h. omega (arith, h, s);
      to = λ k h. omega (arith, h, d);
      once = λ k m l h e. absurd (omega (arith, l, h, e));
      safe = λ k m l h e. absurd (ground (arith, l, h, e, down));
    })
    | inr up ↦ rw up (record {
      from = λ k h. omega (arith, h, s);
      to = λ k h. omega (arith, h, d);
      once = λ k m l h e. absurd (omega (arith, l, h, e));
      safe = λ k m l h e. absurd (ground (arith, l, h, e, up));
    })
  ]

  -- The step at which a row is moved.
  step_of : (down : Bool) (rows i : ℕ) → i < rows → row_at down rows (row_at down rows i) ≡ i
  step_of true rows i h = omega (arith, h)
  step_of false rows i h = refl

  step_below : (down : Bool) (rows i : ℕ) → i < rows → row_at down rows i < rows
  step_below true rows i h = omega (arith, h)
  step_below false rows i h = h

  pub block_lem :
      (rows sy dy sb db n : ℕ) (buffer : Bytes)
      → length buffer ≡ height * line
      → sy + rows ≤ height
      → dy + rows ≤ height
      → sb + n ≤ line
      → db + n ≤ line
      → (i j : ℕ) → i < rows
      → j < n
      → byte_at
          (copy_rows (row_at (ltb sy dy) rows) rows 0 sy sb dy db n line buffer)
          line
          (dy + i)
          (db + j)
        ≡ byte_at buffer line (sy + i) (sb + j)
  block_lem rows sy dy sb db n buffer whole s d r f i j a b =
      let down = ltb sy dy in
      let moved_row =
        (copy_rows_lem (row_at down rows) rows sy dy sb db n (row_at-Ordered rows sy dy s d) r f
            rows 0 buffer (omega arith) whole).1
          (row_at down rows i) j (omega arith) (step_below down rows i a) b in
      subst
        (λ k.
          byte_at (copy_rows (row_at down rows) rows 0 sy sb dy db n line buffer) line (dy + k)
            (db + j)
          ≡ byte_at buffer line (sy + k) (sb + j))
        (step_of down rows i a) moved_row
