-- ===== src/Encode/Blocks/Stretches.antt =====
-- Rows of bytes in a picture, and what writing one does to the others.
use native.Mathlib.Nat.{add-mul, mul-le-mul_right}
use alloyvnc.Base.{
  ℕ, ◌+◌, ◌-◌, ◌*◌, ◌≤◌, ◌<◌, ◌≡◌, ◌≢◌, ◌∙◌, ap, inl, inr, ◌⊎◌, false, Bool-cases, ◌++◌, take, drop,
  length, length-take, length-drop, length-append, get_or, get_or-take, get_or-drop, get_or-append,
  arith, ltb, ◌==◌,
}
use alloyvnc.Proto.Wire.{Bytes}
use alloyvnc.Encode.Framebuffer.{write_at}

-- The byte of a row, the rows being `line` bytes long.
abbrev pub byte_at : Bytes → ℕ → ℕ → ℕ → ℕ
byte_at buffer line y b = get_or buffer (y * line + b) 0

write_at-length :
    (start : ℕ) (bytes buffer : Bytes)
    → start + length bytes ≤ length buffer
    → length (write_at start bytes buffer) ≡ length buffer
unfolding write_at
write_at-length start bytes buffer h =
    let a = length-append (take start buffer) (bytes ++ drop (start + length bytes) buffer) in
    let b = length-append bytes (drop (start + length bytes) buffer) in
    let c = length-take start buffer (omega (arith, h)) in
    let d = length-drop (start + length bytes) buffer in omega (arith, a, b, c, d, h)

-- A byte after a write: in front of it, in it, or after it.
write_at_lem :
    (start i : ℕ) (bytes buffer : Bytes)
    → start + length bytes ≤ length buffer
    → (i < start → get_or (write_at start bytes buffer) i 0 ≡ get_or buffer i 0)
      × ((start ≤ i
            → i < start + length bytes
            → get_or (write_at start bytes buffer) i 0 ≡ get_or bytes (i - start) 0)
          × (start + length bytes ≤ i
              → get_or (write_at start bytes buffer) i 0 ≡ get_or buffer i 0))
unfolding write_at
write_at_lem start i bytes buffer h =
    let front : Bytes = take start buffer in
    let back : Bytes = drop (start + length bytes) buffer in
    let c = length-take start buffer (omega (arith, h)) in
    (
      λ l.
          (get_or-append 0 front (bytes ++ back) i).0 (omega (arith, c, l))
          ∙ get_or-take 0 start buffer i l,
      (
        λ l m.
            ap (λ k. get_or (front ++ (bytes ++ back)) k 0) (at c l)
            ∙ ((get_or-append 0 front (bytes ++ back) (i - start)).1
                ∙ (get_or-append 0 bytes back (i - start)).0 (omega (arith, l, m))),
        λ l.
            ap (λ k. get_or (front ++ (bytes ++ back)) k 0) (at c (omega (arith, l)))
            ∙ ((get_or-append 0 front (bytes ++ back) (i - start)).1
                ∙ (ap (λ k. get_or (bytes ++ back) k 0) (past l)
                    ∙ ((get_or-append 0 bytes back (i - start - length bytes)).1
                        ∙ (get_or-drop 0 (start + length bytes) buffer (i - start - length bytes)
                            ∙ ap (λ k. get_or buffer k 0) (home l))))),
      ),
    )
  where
    at :
        length (take start buffer) ≡ start
        → start ≤ i
        → i ≡ length (take start buffer) + (i - start)
    at e l = omega (arith, e, l)

    past : start + length bytes ≤ i → i - start ≡ length bytes + (i - start - length bytes)
    past l = omega (arith, l)

    home : start + length bytes ≤ i → start + length bytes + (i - start - length bytes) ≡ i
    home l = omega (arith, l)

-- A stretch of a row.
pub record Stretch (line height y b n : ℕ) : Type 0 where
  pub below : y < height
  pub inside : b + n ≤ line

pub row_end : (line height y b n : ℕ) → Stretch line height y b n → y * line + b + n ≤ height * line
row_end line height y b n s =
    let most : (y + 1) * line ≤ height * line =
      mul-le-mul_right line (let h = s.below in omega (arith, h)) in
    let step : (y + 1) * line ≡ y * line + 1 * line = add-mul y 1 line in
    let i = s.inside in omega (arith, most, step, i)

-- A byte of another row stays as it was; one in the stretch is what was written.
pub write_row_lem :
    (line height y b : ℕ) (bytes buffer : Bytes)
    → length buffer ≡ height * line
    → Stretch line height y b (length bytes)
    → (length (write_at (y * line + b) bytes buffer) ≡ height * line)
      × (((row c : ℕ)
            → c < line
            → row ≢ y
            → byte_at (write_at (y * line + b) bytes buffer) line row c ≡ byte_at buffer line row c)
          × ((j : ℕ)
              → j < length bytes
              → byte_at (write_at (y * line + b) bytes buffer) line y (b + j) ≡ get_or bytes j 0))
write_row_lem line height y b bytes buffer whole s =
    let last = row_end line height y b (length bytes) s in
    let fits : y * line + b + length bytes ≤ length buffer = omega (arith, last, whole) in
    let inside = s.inside in
    (
      write_at-length (y * line + b) bytes buffer fits ∙ whole,
      (
        λ row c h other.
            let w = write_at_lem (y * line + b) (row * line + c) bytes buffer fits in
            elim (Bool-cases (ltb row y)) [
              | inl before ↦
                  let lo : (row + 1) * line ≤ y * line =
                    mul-le-mul_right line (ground (arith, before)) in
                  let step : (row + 1) * line ≡ row * line + 1 * line = add-mul row 1 line in
                  w.0 (omega (arith, lo, step, h))
              | inr after ↦
                  let more : y + 1 ≤ row = omega (arith, le_of after, strict other) in
                  let hi : (y + 1) * line ≤ row * line = mul-le-mul_right line more in
                  let step : (y + 1) * line ≡ y * line + 1 * line = add-mul y 1 line in
                  w.1.1 (omega (arith, hi, step, inside))
            ],
        λ j h.
            let w = write_at_lem (y * line + b) (y * line + (b + j)) bytes buffer fits in
            let back : y * line + (b + j) - (y * line + b) ≡ j = omega arith in
            w.1.0 (omega arith) (omega (arith, h)) ∙ ap (λ k. get_or bytes k 0) back,
      ),
    )
  where
    le_of : {p q : ℕ} → ltb p q ≡ false → q ≤ p
    le_of e = ground (arith, e)

    strict : {p q : ℕ} → p ≢ q → (p < q) ⊎ (q < p)
    strict {p} {q} n = elim (Bool-cases (p == q)) [
      | inl e ↦ absurd (n (ground (arith, e)))
      | inr e ↦ ground (arith, e)
    ]

-- A byte of the same row beside the stretch stays as it was.
pub beside_lem :
    (line height y b : ℕ) (bytes buffer : Bytes)
    → length buffer ≡ height * line
    → Stretch line height y b (length bytes)
    → (c : ℕ) → (c < b) ⊎ (b + length bytes ≤ c)
    → byte_at (write_at (y * line + b) bytes buffer) line y c ≡ byte_at buffer line y c
beside_lem line height y b bytes buffer whole s c h =
    let last = row_end line height y b (length bytes) s in
    let w = write_at_lem (y * line + b) (y * line + c) bytes buffer (omega (arith, last, whole)) in
    elim h [ inl before ↦ w.0 (omega (arith, before)) | inr after ↦ w.1.1 (omega (arith, after)) ]
