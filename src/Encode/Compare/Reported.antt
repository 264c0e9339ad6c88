-- ===== src/Encode/Compare/Reported.antt =====
-- `tighten` of crates/alloyvnc-encode/src/compare.rs from its call to its result.
use alloyvnc.Base.{
  ℕ, ◌+◌, ◌-◌, ◌/◌, ◌≤◌, ◌<◌, ◌≡◌, ◌≢◌, refl, ◌∙◌, sym, ap, inl, inr, Bool, true, false, ◌&&◌, ◌||◌,
  Bool-cases, Option, List, [], ◌∷◌, length, get_or, is_nil, arith, ◌==◌,
}
use alloyvnc.Base.Words.{I32, bias}
use alloyvnc.Region.Rect
use alloyvnc.Region.Rect.{Rect, Move}
use alloyvnc.Region.Bands
use alloyvnc.Region.Bands.{Region, holds, contains_point}
use alloyvnc.Proto.Wire.{Bytes}
use alloyvnc.Encode.Framebuffer
use alloyvnc.Encode.Framebuffer.{Framebuffer}
use alloyvnc.Encode.Compare.{
  Tightener, Tightened, Columns, segment, unknown, columns, follow_all, region,
}
use alloyvnc.Encode.Compare.Marking.{Narrow, Sized, Current, cols_of, cell_at, cell_bound, seen}
use alloyvnc.Encode.Compare.Loops.{edges_lem, clipped_point}
use alloyvnc.Region.Rect.Points.{point_lem}
use alloyvnc.Encode.Compare.Passes.{follow_all_lem, lands}
use alloyvnc.Encode.Compare.Regions.{columns-ColumnsOf, region-Reports}
use alloyvnc.Encode.Compare.Detect.{Votes}
use alloyvnc.Encode.Compare.Tighten.{
  detecting, result, marked, looked_at, sized, tighten_sized, tighten,
}
use alloyvnc.Encode.Compare.Covers.{
  remove_all_lem, bounds_point, Shape, sized-Sized, followed, marked-Marked, looked_at-Sized,
  looked_at_hashes,
}

no_cells :
    (fb : Framebuffer) (t : Tightener) (x w : I32)
    → Narrow fb
    → Sized fb t
    → is_nil t.hashes ≡ true
    → Rect.contains_point (Framebuffer.bounds fb) x w ≡ false
no_cells fb t x w n s e = elim (Bool-cases (Rect.contains_point (Framebuffer.bounds fb) x w)) [
  | inl hit ↦
      let p = point_lem (Framebuffer.bounds fb) x w hit in
      let b = edges_lem fb n in
      let x1 : bias ≤ x = omega (arith, p.0, b.0) in
      let x2 : x < bias + fb.width = omega (arith, p.1.0, b.1.0) in
      let y1 : bias ≤ w = omega (arith, p.1.1.0, b.1.1.0) in
      let y2 : w < bias + fb.height = omega (arith, p.1.1.1, b.1.1.1) in
      let i =
        cell_bound (w - bias) ((x - bias) / segment) (cols_of fb) fb.height (omega (arith, y1, y2))
          (omega (arith, x1, x2)) in
      let z : length t.hashes ≡ 0 = length-is_nil t.hashes e in
      let c = s.cells in absurd (omega (arith, i, z, c))
  | inr miss ↦ miss
]
  where
    length-is_nil : (l : List ℕ) → is_nil l ≡ true → length l ≡ 0
    length-is_nil [] h = refl
    length-is_nil (x ∷ l) h = absurd (ground (arith, h))

module _ (hash : Bytes → ℕ) (winner : Votes → Option (I32 × ℕ)) (fb : Framebuffer) where
  -- What a pass does, its tables being of the right size: `old` is what they are when the damage is
  -- looked at.
  pub record Tells (damage : Region) (old t' : Tightener) (out : Tightened) : Type 0 where
    pub size : Sized fb t'
    pub true_ones :
        (x w : I32)
        → contains_point out.damage x w ≡ true
        → (Rect.contains_point (Framebuffer.bounds fb) x w ≡ true)
          × ((get_or old.hashes (cell_at fb x w) unknown ≢ seen hash fb (cell_at fb x w))
              × (lands x w out.moves ≡ false))
    pub all_ones :
        (x w : I32)
        → contains_point damage x w ≡ true
        → Rect.contains_point (Framebuffer.bounds fb) x w ≡ true
        → get_or old.hashes (cell_at fb x w) unknown ≢ seen hash fb (cell_at fb x w)
        → contains_point out.damage x w || lands x w out.moves ≡ true
    pub now :
        (x w : I32)
        → contains_point damage x w ≡ true
        → Rect.contains_point (Framebuffer.bounds fb) x w ≡ true
        → Current hash fb t' (cell_at fb x w)
    pub still :
        (x w : I32)
        → Rect.contains_point (Framebuffer.bounds fb) x w ≡ true
        → Current hash fb old (cell_at fb x w)
        → Current hash fb t' (cell_at fb x w)

  tighten_sized-Tells :
      (t : Tightener) (damage : Region) (moves : List Move)
      → Narrow fb
      → Sized fb t
      → let p = tighten_sized hash winner fb t damage moves in
        Tells damage (follow_all hash fb moves t) p.0 p.1
  unfolding tighten_sized result
  tighten_sized-Tells t damage moves n s =
      let old : Tightener = follow_all hash fb moves t in
      let so = (follow_all_lem hash fb moves t n s).0.sized in
      let box : Rect = Rect.intersection (Bands.bounds damage) (Framebuffer.bounds fb) in
      let span : Columns = columns old box in
      let looking : Bool = detecting box span moves in
      let before : Tightener = looked_at box span looking old in
      let same : before.hashes ≡ old.hashes = looked_at_hashes box span looking old in
      let k = columns-ColumnsOf fb old (Bands.bounds damage) n so in
      let m = marked-Marked hash fb damage before n (looked_at-Sized fb box span looking old so) in
      let t' : Tightener = marked hash fb damage before in
      let out : Tightened = result winner t' box span looking moves in
      let rep = region-Reports fb t' box span n m.size k in
      let at : (i : ℕ) → get_or before.hashes i unknown ≡ get_or old.hashes i unknown =
        λ i. ap (λ h. get_or h i unknown) same in
      record {
        size = m.size;
        true_ones = λ x w h.
            let r = sym (remove_all_lem out.moves (region t' box span) x w rep.normal) ∙ h in
            let in_region = rep.only x w (ground (arith, r)) in
            (
              in_region.0,
              (
                λ e. m.only (cell_at fb x w) in_region.1 (at (cell_at fb x w) ∙ e),
                ground (arith, r),
              ),
            );
        all_ones = λ x w h b e.
            let set = m.all x w h b (λ f. e (sym (at (cell_at fb x w)) ∙ f)) in
            let in_box = clipped_point fb (Bands.bounds damage) x w (bounds_point damage x w h) b in
            let in_region = rep.all x w in_box set in
            let r = remove_all_lem out.moves (region t' box span) x w rep.normal in
            ground (arith, r, in_region);
        now = m.now;
        still = λ x w b c. m.still (cell_at fb x w) (at (cell_at fb x w) ∙ c);
      }

  pub tighten-Tells :
      (t : Tightener) (damage : Region) (moves : List Move)
      → Narrow fb
      → Shape t
      → let p = tighten hash winner fb t damage moves in
        Tells damage (followed hash fb moves t) p.0 p.1
  unfolding tighten contains_point
  tighten-Tells t damage moves n s =
      let size = sized-Sized fb t s in
      elim (Bool-cases (is_nil (sized fb t).hashes)) [
        | inl none_left ↦
            let no = λ (x : I32) (w : I32). no_cells fb (sized fb t) x w n size none_left in
            rw none_left (record {
              size = size;
              true_ones = λ x w h. absurd (ground (arith, h));
              all_ones = λ x w h b e. absurd (let k = no x w in ground (arith, k, b));
              now = λ x w h b. absurd (let k = no x w in ground (arith, k, b));
              still = λ x w b c. absurd (let k = no x w in ground (arith, k, b));
            })
        | inr some_left ↦ rw some_left (tighten_sized-Tells (sized fb t) damage moves n size)
      ]

  -- Where no move is reported, nothing that changed is lost: a pixel of the damage that is in the
  -- picture, and whose cell does not have the hash that the tables had of it before the pass, is
  -- in the damage that is reported or where a move that was found arrives.
  pub tighten_lem :
      (t : Tightener) (damage : Region) (x w : I32)
      → Narrow fb
      → Shape t
      → contains_point damage x w ≡ true
      → Rect.contains_point (Framebuffer.bounds fb) x w ≡ true
      → get_or (sized fb t).hashes (cell_at fb x w) unknown ≢ seen hash fb (cell_at fb x w)
      → let out = (tighten hash winner fb t damage []).1 in
        contains_point out.damage x w || lands x w out.moves ≡ true
  unfolding follow_all
  tighten_lem t damage x w n s = (tighten-Tells t damage [] n s).all_ones x w

  -- Nothing is reported that did not change: a pixel of the reported damage is in the picture, its
  -- cell does not have the hash that it had when the damage was looked at, and no reported move
  -- arrives at it.
  pub tighten_only :
      (t : Tightener) (damage : Region) (moves : List Move) (x w : I32)
      → Narrow fb
      → Shape t
      → contains_point (tighten hash winner fb t damage moves).1.damage x w ≡ true
      → (Rect.contains_point (Framebuffer.bounds fb) x w ≡ true)
        × ((get_or (followed hash fb moves t).hashes (cell_at fb x w) unknown
              ≢ seen hash fb (cell_at fb x w))
            × (lands x w (tighten hash winner fb t damage moves).1.moves ≡ false))
  tighten_only t damage moves x w n s = (tighten-Tells t damage moves n s).true_ones x w

  -- After a pass the tables have the hash of each cell that the damage or a reported move has a
  -- pixel of.
  pub tighten-Current :
      (t : Tightener) (damage : Region) (moves : List Move) (x w : I32)
      → Narrow fb
      → Shape t
      → contains_point damage x w || lands x w moves ≡ true
      → Rect.contains_point (Framebuffer.bounds fb) x w ≡ true
      → Current hash fb (tighten hash winner fb t damage moves).0 (cell_at fb x w)
  tighten-Current t damage moves x w n s h b =
      let tells = tighten-Tells t damage moves n s in
      elim (Bool-cases (contains_point damage x w)) [
        | inl hit ↦ tells.now x w hit b
        | inr miss ↦
            let f = (follow_all_lem hash fb moves (sized fb t) n (sized-Sized fb t s)).1 in
            tells.still x w b (f x w (ground (arith, h, miss)) b)
      ]

  pub sized_same : (t : Tightener) → Sized fb t → sized fb t ≡ t
  sized_same t s =
      let a = s.width in
      let b = s.height in
      let e : t.size.0 == fb.width && t.size.1 == fb.height ≡ true = ground (arith, a, b) in
      rw e refl
