-- ===== src/Encode/Compare/Marking.antt =====
-- What one step of the loops over the damage does to the cells (`tighten` of
-- crates/alloyvnc-encode/src/compare.rs).
use native.Mathlib.Nat.{add-mul, mul-le-mul_right}
use alloyvnc.Base.{
  ℕ, ◌+◌, ◌-◌, ◌*◌, ◌/◌, ◌≤◌, ◌<◌, ◌≡◌, ◌≢◌, refl, ◌∙◌, sym, ap, inl, inr, ◌⊎◌, true, false,
  Bool-cases, length, get_or, arith, leb, ◌==◌,
}
use alloyvnc.Base.Words.{I32, bias, bits_i32}
use alloyvnc.Proto.Wire.{Bytes}
use alloyvnc.Encode.Framebuffer.{Framebuffer}
use alloyvnc.Encode.Compare.{Tightener, segment, unknown, div_ceil, cell_of, hash_of, rehash, mark}
use alloyvnc.Encode.Compare.Cells.{hash_at, mark-Fresh, mark_lem, mark-Marks, mark_only}

-- The picture is narrow enough for its columns to be counted in an `i32`.
pub record Narrow (fb : Framebuffer) : Type 0 where
  pub across : fb.width + segment ≤ bias
  pub down : fb.height < bias

abbrev pub cols_of : Framebuffer → ℕ
cols_of fb = div_ceil fb.width segment

-- The cell of a pixel.
abbrev pub cell_at : Framebuffer → I32 → I32 → ℕ
cell_at fb x y = (y - bias) * cols_of fb + (x - bias) / segment

-- The tables are those of a picture of this size.
pub record Sized (fb : Framebuffer) (t : Tightener) : Type 0 where
  pub width : t.size.0 ≡ fb.width
  pub height : t.size.1 ≡ fb.height
  pub cols : t.cols ≡ cols_of fb
  pub cells : length t.hashes ≡ cols_of fb * fb.height
  pub bits : length t.changed ≡ cols_of fb * fb.height

pub cell_bound : (row c cols height : ℕ) → row < height → c < cols → row * cols + c < cols * height
cell_bound row c cols height h k =
    let above : (row + 1) * cols ≡ row * cols + 1 * cols = add-mul row 1 cols in
    let most : (row + 1) * cols ≤ height * cols = mul-le-mul_right cols (omega (arith, h)) in
    let turned : height * cols ≡ cols * height = omega arith in
    omega (arith, above, most, turned, k)

module _ (hash : Bytes → ℕ) (fb : Framebuffer) where
  abbrev pub seen : ℕ → ℕ
  seen = hash_at hash fb (cols_of fb) fb.width

  -- The cell is as the picture has it.
  abbrev pub Current : Tightener → ℕ → Type 0
  Current t i = get_or t.hashes i unknown ≡ seen i

  -- Each cell is as it was or as the picture has it, and the bits are those of the cells that
  -- were not as the picture has them.
  pub record Good (t t' : Tightener) : Type 0 where
    pub sized : Sized fb t'
    pub before : t'.before ≡ t.before
    pub step : (i : ℕ) → (Current t' i) ⊎ (get_or t'.hashes i unknown ≡ get_or t.hashes i unknown)
    pub kept : (i : ℕ) → get_or t.changed i false ≡ true → get_or t'.changed i false ≡ true
    pub marked :
        (i : ℕ)
        → get_or t'.hashes i unknown ≢ get_or t.hashes i unknown
        → get_or t'.changed i false ≡ true
    pub only :
        (i : ℕ)
        → get_or t'.changed i false ≡ true
        → (get_or t.changed i false ≡ true) ⊎ (get_or t.hashes i unknown ≢ seen i)

  pub same-Good : (t : Tightener) → Sized fb t → Good t t
  same-Good t s = record {
    sized = s;
    before = refl;
    step = λ i. inr refl;
    kept = λ i h. h;
    marked = λ i h. absurd (h refl);
    only = λ i h. inl h;
  }

  pub Good-Current : (t t' : Tightener) → Good t t' → (i : ℕ) → Current t i → Current t' i
  Good-Current t t' g i h = elim (g.step i) [ inl e ↦ e | inr e ↦ e ∙ h ]

  pub then-Good : (t u v : Tightener) → Good t u → Good u v → Good t v
  then-Good t u v p q = record {
    sized = q.sized;
    before = q.before ∙ p.before;
    step = λ i. elim (q.step i) [
      | inl e ↦ inl e
      | inr e ↦ elim (p.step i) [ inl f ↦ inl (e ∙ f) | inr f ↦ inr (e ∙ f) ]
    ];
    kept = λ i h. q.kept i (p.kept i h);
    marked = λ i h. elim (Bool-cases (get_or v.hashes i unknown == get_or u.hashes i unknown)) [
      | inl e ↦
          let f : get_or v.hashes i unknown ≡ get_or u.hashes i unknown = ground arith in
          q.kept i (p.marked i (λ g. h (f ∙ g)))
      | inr e ↦ q.marked i (λ f. absurd (ground arith))
    ];
    only = λ i h. elim (q.only i h) [
      | inl e ↦ p.only i e
      | inr e ↦ inr (λ f. e (Good-Current t u p i f))
    ];
  }

  mark_before : (t : Tightener) (y : I32) (c : ℕ) → (mark hash fb y c t).before ≡ t.before
  unfolding mark rehash
  mark_before t y c = elim (Bool-cases (leb t.size.0 (c * segment))) [
    | inl none_left ↦ rw none_left refl
    | inr some_left ↦
        elim (Bool-cases (get_or t.hashes (cell_of t y c) unknown == hash_of hash fb t y c)) [
          | inl still ↦ rw (some_left, still) refl
          | inr moved ↦ rw (some_left, moved) refl
        ]
  ]

  -- The cell is inside the tables, and where the picture has it.
  pub inside_lem :
      (t : Tightener) (y : I32) (c : ℕ)
      → Narrow fb
      → Sized fb t
      → bias ≤ y
      → y < bias + fb.height
      → c < cols_of fb
      → (c < t.cols)
        × ((cell_of t y c < cols_of fb * fb.height) × (cell_of t y c ≡ (y - bias) * cols_of fb + c))
  inside_lem t y c n s a b k =
      let d = n.down in
      let row : bits_i32 y ≡ y - bias = omega (arith, a, b, d) in
      let low : y - bias < fb.height = omega (arith, a, b) in
      rw (s.cols, row) (k, (cell_bound (y - bias) c (cols_of fb) fb.height low k, refl))

  pub mark-Good :
      (t : Tightener) (y : I32) (c : ℕ)
      → Narrow fb
      → Sized fb t
      → bias ≤ y
      → y < bias + fb.height
      → c < cols_of fb
      → Good t (mark hash fb y c t)
  mark-Good t y c n s a b k =
      let i = inside_lem t y c n s a b k in
      let f = mark-Fresh hash fb t y c i.0 in
      let m = mark-Marks hash fb t y c (omega (arith, i.1.0, s.bits)) in
      let same : (j : ℕ) → hash_at hash fb t.cols t.size.0 j ≡ seen j =
        λ j. rw (s.cols, s.width) refl in
      record {
        sized = record {
          width = ap (λ p. p.0) f.size ∙ s.width;
          height = ap (λ p. p.1) f.size ∙ s.height;
          cols = f.cols ∙ s.cols;
          cells = f.cells ∙ s.cells;
          bits = f.bits ∙ s.bits;
        };
        before = mark_before t y c;
        step = λ j. elim (f.step j) [ inl e ↦ inl (e ∙ same j) | inr e ↦ inr e ];
        kept = m.kept;
        marked = m.marked;
        only = λ j h. elim (mark_only hash fb t y c i.0 j h) [
          | inl e ↦ inl e
          | inr e ↦ inr (λ g. e (g ∙ sym (same j)))
        ];
      }

  pub mark_Current :
      (t : Tightener) (y : I32) (c : ℕ)
      → Narrow fb
      → Sized fb t
      → bias ≤ y
      → y < bias + fb.height
      → c < cols_of fb
      → Current (mark hash fb y c t) ((y - bias) * cols_of fb + c)
  mark_Current t y c n s a b k =
      let i = inside_lem t y c n s a b k in
      let w = s.width in
      let same : (j : ℕ) → hash_at hash fb t.cols t.size.0 j ≡ seen j =
        λ j. rw (s.cols, s.width) refl in
      ap (λ j. get_or (mark hash fb y c t).hashes j unknown) (sym i.1.1)
      ∙ (mark_lem hash fb t y c i.0 (omega (arith, w, k)) (omega (arith, i.1.0, s.cells))
          ∙ (same (cell_of t y c) ∙ ap seen i.1.1))
