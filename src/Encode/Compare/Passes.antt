-- ===== src/Encode/Compare/Passes.antt =====
-- The two passes of `tighten` of crates/alloyvnc-encode/src/compare.rs over the cells: the one that
-- follows reported moves, and the one that marks what changed.
use alloyvnc.Base.{
  ℕ, ◌+◌, ◌-◌, ◌*◌, ◌≤◌, ◌<◌, ◌≡◌, refl, ◌∙◌, sym, ap, inl, inr, ◌⊎◌, Bool, true, Bool-cases, List,
  [], ◌∷◌, any, get_or, arith, leb,
}
use alloyvnc.Base.Words.{I32, bias}
use alloyvnc.Region.Rect
use alloyvnc.Region.Rect.{Rect, Move}
use alloyvnc.Region.Bands.{holds}
use alloyvnc.Proto.Wire.{Bytes}
use alloyvnc.Encode.Framebuffer
use alloyvnc.Encode.Framebuffer.{Framebuffer}
use alloyvnc.Encode.Compare.{
  Tightener, segment, unknown, cell_of, rehash, mark, touch, follow, follow_all, mark_all,
}
use alloyvnc.Encode.Compare.Cells.{hash_at, rehash-Fresh, rehash_lem}
use alloyvnc.Encode.Compare.Marking.{
  Narrow, Sized, Current, cols_of, cell_at, Good, same-Good, then-Good, Good-Current, mark-Good,
  mark_Current, inside_lem,
}
use alloyvnc.Encode.Compare.Loops.{Walks, clipped_point, each_in_lem, each_rect_lem}

-- The pixels where a reported move arrives.
abbrev pub lands : I32 → I32 → List Move → Bool
lands x w = any (λ m. Rect.contains_point m.dst x w)

module _ (hash : Bytes → ℕ) (fb : Framebuffer) where
  abbrev mark_walks : Narrow fb → Walks hash fb (mark hash fb)
  mark_walks n = record {
    Goes = Good hash fb;
    same = same-Good hash fb;
    chain = then-Good hash fb;
    sized = λ t u g. g.sized;
    stays = Good-Current hash fb;
    one =
        λ t y c s a b k. (mark-Good hash fb t y c n s a b k, mark_Current hash fb t y c n s a b k);
  }

  pub mark_all_lem :
      (rs : List Rect) (t : Tightener)
      → Narrow fb
      → Sized fb t
      → Good hash fb t (mark_all hash fb rs t)
        × ((x w : I32)
            → holds x w rs ≡ true
            → Rect.contains_point (Framebuffer.bounds fb) x w ≡ true
            → Current hash fb (mark_all hash fb rs t) (cell_at fb x w))
  unfolding mark_all
  mark_all_lem rs t n s = each_rect_lem hash fb (mark hash fb) (mark_walks n) rs t n s

  -- What is left of a pass that sets no bits.
  pub record Touched (t t' : Tightener) : Type 0 where
    pub sized : Sized fb t'
    pub before : t'.before ≡ t.before
    pub bits : t'.changed ≡ t.changed
    pub step :
        (i : ℕ) → (Current hash fb t' i) ⊎ (get_or t'.hashes i unknown ≡ get_or t.hashes i unknown)

  same-Touched : (t : Tightener) → Sized fb t → Touched t t
  same-Touched t s = record { sized = s; before = refl; bits = refl; step = λ i. inr refl }

  Touched-Current :
      (t u : Tightener) → Touched t u → (i : ℕ) → Current hash fb t i → Current hash fb u i
  Touched-Current t u g i h = elim (g.step i) [ inl e ↦ e | inr e ↦ e ∙ h ]

  then-Touched : (t u v : Tightener) → Touched t u → Touched u v → Touched t v
  then-Touched t u v p q = record {
    sized = q.sized;
    before = q.before ∙ p.before;
    bits = q.bits ∙ p.bits;
    step = λ i. elim (q.step i) [
      | inl e ↦ inl e
      | inr e ↦ elim (p.step i) [ inl f ↦ inl (e ∙ f) | inr f ↦ inr (e ∙ f) ]
    ];
  }

  touch_others :
      (t : Tightener) (y : I32) (c : ℕ)
      → ((touch hash fb y c t).before ≡ t.before) × ((touch hash fb y c t).changed ≡ t.changed)
  unfolding rehash
  touch_others t y c = elim (Bool-cases (leb t.size.0 (c * segment))) [
    | inl none_left ↦ rw (touch, none_left) (refl, refl)
    | inr some_left ↦ rw (touch, some_left) (refl, refl)
  ]

  touch_lem :
      (t : Tightener) (y : I32) (c : ℕ)
      → Narrow fb
      → Sized fb t
      → bias ≤ y
      → y < bias + fb.height
      → c < cols_of fb
      → Touched t (touch hash fb y c t)
        × Current hash fb (touch hash fb y c t) ((y - bias) * cols_of fb + c)
  touch_lem t y c n s a b k =
      let i = inside_lem hash fb t y c n s a b k in
      let f = rehash-Fresh hash fb t y c i.0 in
      let w = s.width in
      let same : (j : ℕ)
          → hash_at hash fb t.cols t.size.0 j ≡ hash_at hash fb (cols_of fb) fb.width j =
        λ j. rw (s.cols, s.width) refl in
      (
        record {
          sized = record {
            width = ap (λ p. p.0) f.size ∙ s.width;
            height = ap (λ p. p.1) f.size ∙ s.height;
            cols = f.cols ∙ s.cols;
            cells = f.cells ∙ s.cells;
            bits = f.bits ∙ s.bits;
          };
          before = (touch_others t y c).0;
          bits = (touch_others t y c).1;
          step = λ j. elim (f.step j) [ inl e ↦ inl (e ∙ same j) | inr e ↦ inr e ];
        },
        ap (λ j. get_or (touch hash fb y c t).hashes j unknown) (sym i.1.1)
            ∙ (rehash_lem hash fb t y c i.0 (omega (arith, w, k)) (omega (arith, i.1.0, s.cells))
                ∙ (same (cell_of t y c) ∙ ap (hash_at hash fb (cols_of fb) fb.width) i.1.1)),
      )

  abbrev touch_walks : Narrow fb → Walks hash fb (touch hash fb)
  touch_walks n = record {
    Goes = Touched;
    same = same-Touched;
    chain = then-Touched;
    sized = λ t u g. g.sized;
    stays = Touched-Current;
    one = λ t y c s a b k. touch_lem t y c n s a b k;
  }

  pub follow_all_lem :
      (ms : List Move) (t : Tightener)
      → Narrow fb
      → Sized fb t
      → Touched t (follow_all hash fb ms t)
        × ((x w : I32)
            → lands x w ms ≡ true
            → Rect.contains_point (Framebuffer.bounds fb) x w ≡ true
            → Current hash fb (follow_all hash fb ms t) (cell_at fb x w))
  unfolding follow_all follow
  follow_all_lem [] t n s = (same-Touched t s, λ x w h k. absurd (ground (arith, h)))
  follow_all_lem (m ∷ ms) t n s =
      let one = each_in_lem hash fb (touch hash fb) (touch_walks n) m.dst t n s in
      let rest = follow_all_lem ms _ n one.0.sized in
      (
        then-Touched t _ _ one.0 rest.0,
        λ x w h k. elim (Bool-cases (Rect.contains_point m.dst x w)) [
          | inl hit ↦ Touched-Current _ _ rest.0 _ (one.1 x w (clipped_point fb m.dst x w hit k))
          | inr miss ↦ rest.1 x w (ground (arith, h, miss)) k
        ],
      )
