-- ===== src/Encode/Compare/Cells.antt =====
-- What a rehash does to the cells (`rehash` of crates/alloyvnc-encode/src/compare.rs).
use native.Mathlib.Nat.{add-mul, div-eq_of_lt-le, div-add-mod'}
use alloyvnc.Base.{
  ℕ, ◌+◌, ◌-◌, ◌*◌, ◌/◌, ◌%◌, ◌<◌, min, ◌≡◌, ◌≢◌, refl, ◌∙◌, sym, ap, inl, inr, ◌⊎◌, Bool, true,
  false, Bool-cases, List, length, get_or, set_at, length-set_at, get_or-set_at_same, set_at_cases,
  arith, leb, ◌==◌,
}
use alloyvnc.Base.Words.{I32, bits_i32}
use alloyvnc.Proto.Wire.{Bytes}
use alloyvnc.Encode.Framebuffer.{Framebuffer, row_span}
use alloyvnc.Encode.Compare.{Tightener, segment, unknown, cell_of, hash_of, rehash, mark}

-- The hash of a cell of a picture that is `cols` cells and `width` pixels across.
abbrev pub hash_at : (Bytes → ℕ) → Framebuffer → ℕ → ℕ → ℕ → ℕ
hash_at hash fb cols width i =
    hash (row_span fb (i / cols) (i % cols * segment) (min segment (width - i % cols * segment)))

-- The row and the column of a cell.
pub cell_lem :
    (cols row c : ℕ) → c < cols → ((row * cols + c) / cols ≡ row) × ((row * cols + c) % cols ≡ c)
cell_lem cols row c h =
    let above : (row + 1) * cols ≡ row * cols + 1 * cols = add-mul row 1 cols in
    let row_of : (row * cols + c) / cols ≡ row =
      div-eq_of_lt-le cols (omega arith) (omega (arith, above, h)) in
    let whole = div-add-mod' (row * cols + c) cols in
    let at : (row * cols + c) / cols * cols ≡ row * cols = ap (λ k. k * cols) row_of in
    (row_of, omega (arith, whole, at))

hash_at_cell :
    (hash : Bytes → ℕ) (fb : Framebuffer) (t : Tightener) (y : I32) (c : ℕ)
    → c < t.cols
    → hash_of hash fb t y c ≡ hash_at hash fb t.cols t.size.0 (cell_of t y c)
hash_at_cell hash fb t y c h = let l = cell_lem t.cols (bits_i32 y) c h in rw (l.0, l.1) refl

module _ (hash : Bytes → ℕ) (fb : Framebuffer) where
  -- Each cell is as it was, or as the picture has it now.
  pub record Fresh (t t' : Tightener) : Type 0 where
    pub size : t'.size ≡ t.size
    pub cols : t'.cols ≡ t.cols
    pub cells : length t'.hashes ≡ length t.hashes
    pub bits : length t'.changed ≡ length t.changed
    pub step :
        (i : ℕ)
        → (get_or t'.hashes i unknown ≡ hash_at hash fb t.cols t.size.0 i)
          ⊎ (get_or t'.hashes i unknown ≡ get_or t.hashes i unknown)

  -- Each cell that changed has its bit, and no bit goes.
  pub record Marks (t t' : Tightener) : Type 0 where
    pub kept : (i : ℕ) → get_or t.changed i false ≡ true → get_or t'.changed i false ≡ true
    pub marked :
        (i : ℕ)
        → get_or t'.hashes i unknown ≢ get_or t.hashes i unknown
        → get_or t'.changed i false ≡ true

  pub same-Fresh : (t : Tightener) → Fresh t t
  same-Fresh t = record {
    size = refl;
    cols = refl;
    cells = refl;
    bits = refl;
    step = λ i. inr refl;
  }

  pub same-Marks : (t : Tightener) → Marks t t
  same-Marks t = record { kept = λ i h. h; marked = λ i h. absurd (h refl) }

  pub then-Fresh : (t u v : Tightener) → Fresh t u → Fresh u v → Fresh t v
  then-Fresh t u v p q = record {
    size = q.size ∙ p.size;
    cols = q.cols ∙ p.cols;
    cells = q.cells ∙ p.cells;
    bits = q.bits ∙ p.bits;
    step = λ i. elim (q.step i) [
      | inl e ↦ inl (e ∙ rw (p.size, p.cols) refl)
      | inr e ↦ elim (p.step i) [ inl f ↦ inl (e ∙ f) | inr f ↦ inr (e ∙ f) ]
    ];
  }

  pub then-Marks : (t u v : Tightener) → Marks t u → Marks u v → Marks t v
  then-Marks t u v p q = record {
    kept = λ i h. q.kept i (p.kept i h);
    marked = λ i h. elim (Bool-cases (get_or v.hashes i unknown == get_or u.hashes i unknown)) [
      | inl e ↦
          let f : get_or v.hashes i unknown ≡ get_or u.hashes i unknown = ground arith in
          q.kept i (p.marked i (λ g. h (f ∙ g)))
      | inr e ↦ q.marked i (λ f. absurd (ground arith))
    ];
  }

  pub rehash-Fresh :
      (t : Tightener) (y : I32) (c : ℕ) → c < t.cols → Fresh t (rehash hash fb t y c).0
  unfolding rehash
  rehash-Fresh t y c h = elim (Bool-cases (leb t.size.0 (c * segment))) [
    | inl none_left ↦ rw none_left (same-Fresh t)
    | inr some_left ↦ rw some_left (record {
      size = refl;
      cols = refl;
      cells = length-set_at (cell_of t y c) _ t.hashes;
      bits = refl;
      step = λ i. elim (set_at_cases unknown (cell_of t y c) i (hash_of hash fb t y c) t.hashes) [
        | inl (at, e) ↦
            inl (e ∙ hash_at_cell hash fb t y c h ∙ ap (hash_at hash fb t.cols t.size.0) at)
        | inr e ↦ inr e
      ];
    })
  ]

  -- The cell that is rehashed is as the picture has it.
  pub rehash_lem :
      (t : Tightener) (y : I32) (c : ℕ)
      → c < t.cols
      → c * segment < t.size.0
      → cell_of t y c < length t.hashes
      → get_or (rehash hash fb t y c).0.hashes (cell_of t y c) unknown
        ≡ hash_at hash fb t.cols t.size.0 (cell_of t y c)
  unfolding rehash
  rehash_lem t y c h w l =
      let e : leb t.size.0 (c * segment) ≡ false = ground (arith, w) in
      rw e (
        get_or-set_at_same unknown (cell_of t y c) (hash_of hash fb t y c) t.hashes l
        ∙ hash_at_cell hash fb t y c h)

  pub mark-Fresh : (t : Tightener) (y : I32) (c : ℕ) → c < t.cols → Fresh t (mark hash fb y c t)
  unfolding mark
  mark-Fresh t y c h =
      let f = rehash-Fresh t y c h in
      elim (Bool-cases (rehash hash fb t y c).1) [
        | inl moved ↦ rw moved (record {
          size = f.size;
          cols = f.cols;
          cells = f.cells;
          bits = length-set_at _ true (rehash hash fb t y c).0.changed ∙ f.bits;
          step = f.step;
        })
        | inr still ↦ rw still f
      ]

  mark_hashes :
      (t : Tightener) (y : I32) (c : ℕ)
      → (mark hash fb y c t).hashes ≡ (rehash hash fb t y c).0.hashes
  unfolding mark
  mark_hashes t y c = elim (Bool-cases (rehash hash fb t y c).1) [
    | inl moved ↦ rw moved refl
    | inr still ↦ rw still refl
  ]

  pub mark_lem :
      (t : Tightener) (y : I32) (c : ℕ)
      → c < t.cols
      → c * segment < t.size.0
      → cell_of t y c < length t.hashes
      → get_or (mark hash fb y c t).hashes (cell_of t y c) unknown
        ≡ hash_at hash fb t.cols t.size.0 (cell_of t y c)
  mark_lem t y c h w l =
      ap (λ hs. get_or hs (cell_of t y c) unknown) (mark_hashes t y c) ∙ rehash_lem t y c h w l

  set_at_kept :
      (i j : ℕ) (bits : List Bool)
      → get_or bits j false ≡ true
      → get_or (set_at i true bits) j false ≡ true
  set_at_kept i j bits h = elim (set_at_cases false i j true bits) [
    | inl (at, e) ↦ e
    | inr e ↦ e ∙ h
  ]

  pub mark-Marks :
      (t : Tightener) (y : I32) (c : ℕ)
      → cell_of t y c < length t.changed
      → Marks t (mark hash fb y c t)
  unfolding mark rehash
  mark-Marks t y c l = elim (Bool-cases (leb t.size.0 (c * segment))) [
    | inl none_left ↦ rw none_left (same-Marks t)
    | inr some_left ↦
        elim (Bool-cases (get_or t.hashes (cell_of t y c) unknown == hash_of hash fb t y c)) [
          | inl still ↦
              rw (some_left, still)
                (record {
                  kept = λ i h. h;
                  marked = λ i h.
                      elim (set_at_cases unknown (cell_of t y c) i (hash_of hash fb t y c)
                        t.hashes) [
                          | inl (at, e) ↦
                              let f : get_or t.hashes (cell_of t y c) unknown
                                  ≡ hash_of hash fb t y c =
                                ground arith in
                              absurd (h (e ∙ (sym f ∙ ap (λ k. get_or t.hashes k unknown) at)))
                          | inr e ↦ absurd (h e)
                        ];
                })
          | inr moved ↦
              rw (some_left, moved)
                (record {
                  kept = λ i h. set_at_kept (cell_of t y c) i t.changed h;
                  marked = λ i h.
                      elim (set_at_cases unknown (cell_of t y c) i (hash_of hash fb t y c)
                        t.hashes) [
                          | inl (at, e) ↦
                              ap (λ k. get_or (set_at (cell_of t y c) true t.changed) k false)
                                (sym at)
                              ∙ get_or-set_at_same false (cell_of t y c) true t.changed l
                          | inr e ↦ absurd (h e)
                        ];
                })
        ]
  ]

  -- A bit that is new is that of a cell that the picture has otherwise.
  pub mark_only :
      (t : Tightener) (y : I32) (c : ℕ)
      → c < t.cols
      → (i : ℕ) → get_or (mark hash fb y c t).changed i false ≡ true
      → (get_or t.changed i false ≡ true)
        ⊎ (get_or t.hashes i unknown ≢ hash_at hash fb t.cols t.size.0 i)
  unfolding mark rehash
  mark_only t y c l i = elim (Bool-cases (leb t.size.0 (c * segment))) [
    | inl none_left ↦ rw none_left (λ h. inl h)
    | inr some_left ↦
        elim (Bool-cases (get_or t.hashes (cell_of t y c) unknown == hash_of hash fb t y c)) [
          | inl still ↦ rw (some_left, still) (λ h. inl h)
          | inr moved ↦
              rw (some_left, moved)
                (λ h. elim (set_at_cases false (cell_of t y c) i true t.changed) [
                  | inl (at, e) ↦ inr (λ f.
                      let g : get_or t.hashes (cell_of t y c) unknown ≡ hash_of hash fb t y c =
                        ap (λ k. get_or t.hashes k unknown) at
                        ∙ (f
                            ∙ (ap (hash_at hash fb t.cols t.size.0) (sym at)
                                ∙ sym (hash_at_cell hash fb t y c l))) in
                      absurd (ground (arith, g, moved)))
                  | inr e ↦ inl (sym e ∙ h)
                ])
        ]
  ]
