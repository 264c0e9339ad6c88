-- ===== src/Encode/Compare/Again.antt =====
-- A second pass of `tighten` of crates/alloyvnc-encode/src/compare.rs over the same picture.
use alloyvnc.Base.{
  ℕ, zero, suc, ◌+◌, ◌-◌, ◌*◌, ◌/◌, ◌≤◌, ◌<◌, ◌≡◌, refl, ◌∙◌, sym, ap, if◌then◌else◌, inl, inr,
  Bool, true, false, ◌||◌, Bool-cases, Option, List, [], get_or, is_nil, arith,
}
use alloyvnc.Base.Words.{I32, bias}
use alloyvnc.Region.Rect
use alloyvnc.Region.Rect.{Rect, Move}
use alloyvnc.Region.Bands
use alloyvnc.Region.Bands.{Region, contains_point}
use alloyvnc.Proto.Wire.{Bytes}
use alloyvnc.Encode.Framebuffer
use alloyvnc.Encode.Framebuffer.{Framebuffer}
use alloyvnc.Encode.Compare.{Tightener, Columns, unknown, cell_of, columns, follow_all}
use alloyvnc.Encode.Compare.Marking.{Narrow, Sized, Current, cols_of, cell_at, seen, inside_lem}
use alloyvnc.Encode.Compare.Passes.{lands}
use alloyvnc.Encode.Compare.Regions.{columns-ColumnsOf, in_bounds}
use alloyvnc.Encode.Compare.Detect.{Votes, any_column, changed_rows, detect}
use alloyvnc.Encode.Compare.Tighten.{result, marked, looked_at, tighten_sized, tighten}
use alloyvnc.Encode.Compare.Covers.{Shape, Sized-Shape, marked-Marked, looked_at-Sized}
use alloyvnc.Encode.Compare.Reported.{tighten-Tells, tighten-Current, sized_same}

no_column :
    (n c : ℕ) (p : ℕ → Bool)
    → ((j : ℕ) → c ≤ j → j < c + n → p j ≡ false)
    → any_column n c p ≡ false
unfolding any_column
no_column zero c p h = refl
no_column (suc n) c p h =
    let here = h c (omega arith) (omega arith) in
    let rest = no_column n (c + 1) p (λ j a b. h j (omega (arith, a)) (omega (arith, b))) in
    rw (here, rest) refl

no_rows :
    (n : ℕ) (y : I32) (span : Columns) (t : Tightener)
    → ((w : I32)
        → y ≤ w
        → w < y + n
        → (j : ℕ) → span.0 ≤ j
        → j < span.0 + (span.1 - span.0)
        → get_or t.changed (cell_of t w j) false ≡ false)
    → changed_rows n y span t ≡ []
unfolding changed_rows
no_rows zero y span t h = refl
no_rows (suc n) y span t h =
    let here =
      no_column (span.1 - span.0) span.0 (λ c. get_or t.changed (cell_of t y c) false)
        (h y (omega arith) (omega arith)) in
    let rest = no_rows n (y + 1) span t (λ w a b. h w (omega (arith, a)) (omega (arith, b))) in
    rw (here, rest) refl

detect-none :
    (winner : Votes → Option (I32 × ℕ)) (t : Tightener) (box : Rect) (span : Columns)
    → changed_rows (box.y2 - box.y1) box.y1 span t ≡ []
    → detect winner t box span ≡ []
unfolding detect
detect-none winner t box span e = rw e refl

if_none : (l : List Move) → l ≡ [] → (if is_nil l then [] else l) ≡ []
if_none l e = rw e refl

module _ (hash : Bytes → ℕ) (winner : Votes → Option (I32 × ℕ)) (fb : Framebuffer) where
  -- The tables have the hash of every cell of the picture.
  abbrev pub AllCurrent : Tightener → Type 0
  AllCurrent t =
      (x w : I32)
      → Rect.contains_point (Framebuffer.bounds fb) x w ≡ true
      → Current hash fb t (cell_at fb x w)

  nothing_found :
      (t : Tightener) (damage : Region) (looking : Bool)
      → Narrow fb
      → Sized fb t
      → AllCurrent t
      → let box : Rect = Rect.intersection (Bands.bounds damage) (Framebuffer.bounds fb) in
        let span : Columns = columns t box in
        let t' = marked hash fb damage (looked_at box span looking t) in
        (result winner t' box span looking []).moves ≡ []
  unfolding result
  nothing_found t damage false n s all = refl
  nothing_found t damage true n s all =
      let box : Rect = Rect.intersection (Bands.bounds damage) (Framebuffer.bounds fb) in
      let span : Columns = columns t box in
      let before : Tightener = looked_at box span true t in
      let k = columns-ColumnsOf fb t (Bands.bounds damage) n s in
      let m = marked-Marked hash fb damage before n (looked_at-Sized fb box span true t s) in
      let t' : Tightener = marked hash fb damage before in
      let none_changed = no_rows (box.y2 - box.y1) box.y1 span t' (λ w a b j c d.
        let top = k.top in
        let bottom = k.bottom in
        let most = k.most in
        let fits = k.fits in
        let o = k.ordered in
        let x : I32 = bias + j * 64 in
        let low : bias ≤ w = omega (arith, top, a) in
        let high : w < bias + fb.height = omega (arith, bottom, b) in
        let i = inside_lem hash fb t' w j n m.size low high (omega (arith, d, o, most)) in
        let column : (x - bias) / 64 ≡ j = omega arith in
        let at : cell_of t' w j ≡ cell_at fb x w =
          i.1.1 ∙ ap (λ e. (w - bias) * cols_of fb + e) (sym column) in
        let inb = in_bounds fb x w n (omega arith) (omega (arith, d, o, fits)) low high in
        elim (Bool-cases (get_or t'.changed (cell_of t' w j) false)) [
          | inl on ↦ absurd (
              m.only (cell_of t' w j) on (
                ap (λ e. get_or t.hashes e unknown) at
                ∙ (all x w inb ∙ ap (λ e. seen hash fb e) (sym at))))
          | inr off ↦ off
        ]) in
      if_none (detect winner t' box span) (detect-none winner t' box span none_changed)

  nothing_moved :
      (t : Tightener) (damage : Region)
      → Narrow fb
      → Sized fb t
      → AllCurrent t
      → (tighten hash winner fb t damage []).1.moves ≡ []
  unfolding tighten tighten_sized follow_all
  nothing_moved t damage n s all =
      rw (sized_same hash winner fb t s) (elim (Bool-cases (is_nil t.hashes)) [
        | inl none_left ↦ rw none_left refl
        | inr some_left ↦ rw some_left (nothing_found t damage _ n s all)
      ])

  -- If a first pass is given every pixel of a picture as damage or as a move, a second pass over
  -- the same picture, whatever is claimed to be damage, reports no damage and finds no move.
  pub tighten-tighten :
      (t : Tightener) (damage claimed : Region) (moves : List Move) (x w : I32)
      → Narrow fb
      → Shape t
      → ((a b : I32)
          → Rect.contains_point (Framebuffer.bounds fb) a b ≡ true
          → contains_point damage a b || lands a b moves ≡ true)
      → let t' = (tighten hash winner fb t damage moves).0 in
        let again = (tighten hash winner fb t' claimed []).1 in
        (contains_point again.damage x w ≡ false) × (again.moves ≡ [])
  unfolding follow_all
  tighten-tighten t damage claimed moves x w n s every =
      let t' : Tightener = (tighten hash winner fb t damage moves).0 in
      let first = tighten-Tells hash winner fb t damage moves n s in
      let again = tighten-Tells hash winner fb t' claimed [] n (Sized-Shape fb t' first.size) in
      let all : AllCurrent t' =
        λ a b h. tighten-Current hash winner fb t damage moves a b n s (every a b h) h in
      (
        elim (Bool-cases (contains_point (tighten hash winner fb t' claimed []).1.damage x w)) [
          | inl hit ↦
              let told = again.true_ones x w hit in
              absurd (
                told.1.0 (
                  ap (λ u. get_or u.hashes (cell_at fb x w) unknown)
                    (sized_same hash winner fb t' first.size)
                  ∙ all x w told.0))
          | inr miss ↦ miss
        ],
        nothing_moved t' claimed n first.size all,
      )
