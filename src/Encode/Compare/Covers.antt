-- ===== src/Encode/Compare/Covers.antt =====
-- What `tighten` of crates/alloyvnc-encode/src/compare.rs reports: all that changed, and no more.
use alloyvnc.Base.{
  ℕ, ◌*◌, ◌≡◌, ◌≢◌, refl, ◌∙◌, sym, ap, inl, inr, Bool, true, false, not, ◌&&◌, ◌||◌, Bool-cases,
  List, [], ◌∷◌, length, get_or, replicate, length-replicate, get_or-replicate, arith, ◌==◌,
}
use alloyvnc.Base.Words.{I32}
use alloyvnc.Region.Rect
use alloyvnc.Region.Rect.{Rect, Move}
use alloyvnc.Region.Rect.Points.{union_bounds_lem, contains_lem}
use alloyvnc.Region.Bands
use alloyvnc.Region.Bands.{Region, holds, contains_point}
use alloyvnc.Region.Bands.Strips.{IsNormal}
use alloyvnc.Region.Bands.Edits.{add-remove}
use alloyvnc.Proto.Wire.{Bytes}
use alloyvnc.Encode.Framebuffer
use alloyvnc.Encode.Framebuffer.{Framebuffer}
use alloyvnc.Encode.Compare.{Tightener, Columns, segment, unknown, div_ceil, reset, follow_all}
use alloyvnc.Encode.Compare.Marking.{Narrow, Sized, Current, cols_of, cell_at, seen, Good-Current}
use alloyvnc.Encode.Compare.Passes.{mark_all_lem, lands}
use alloyvnc.Encode.Compare.Regions.{bit}
use alloyvnc.Encode.Compare.Tighten.{remove_all, marked, looked_at, sized}

pub remove_all_lem :
    (ms : List Move) (d : Region) (x w : I32)
    → IsNormal d.rects
    → contains_point (remove_all ms d) x w ≡ contains_point d x w && not (lands x w ms)
unfolding remove_all
remove_all_lem [] d x w n = ground arith
remove_all_lem (m ∷ ms) d x w n =
    let one = (add-remove d m.dst n).1 in
    let rest = remove_all_lem ms _ x w one.normal in
    let p = one.points x w in rest ∙ ground (arith, p)

union_point :
    (b r : Rect) (x w : I32)
    → Rect.contains_point b x w || Rect.contains_point r x w ≡ true
    → Rect.contains_point (Rect.union_bounds b r) x w ≡ true
union_point b r x w h =
    let u = union_bounds_lem b r in
    let left = (contains_lem (Rect.union_bounds b r) b).0 u.0 x w in
    let right = (contains_lem (Rect.union_bounds b r) r).0 u.1 x w in ground (arith, h, left, right)

bounds_from_lem :
    (b : Rect) (rs : List Rect) (x w : I32)
    → Rect.contains_point b x w || holds x w rs ≡ true
    → Rect.contains_point (Bands.bounds_from b rs) x w ≡ true
unfolding Bands.bounds_from
bounds_from_lem b [] x w h = ground (arith, h)
bounds_from_lem b (r ∷ rs) x w h =
    let wide = union_point b r x w in
    bounds_from_lem (Rect.union_bounds b r) rs x w (ground (arith, h, wide))

-- The bounds of the damage hold all of its points.
pub bounds_point :
    (d : Region) (x w : I32)
    → contains_point d x w ≡ true
    → Rect.contains_point (Bands.bounds d) x w ≡ true
unfolding Bands.bounds contains_point
bounds_point d x w h = bounds_from_lem Rect.empty d.rects x w (ground (arith, h))

-- The tables have the size that the tightener says.
pub record Shape (t : Tightener) : Type 0 where
  pub cols : t.cols ≡ div_ceil t.size.0 segment
  pub cells : length t.hashes ≡ t.cols * t.size.1
  pub bits : length t.changed ≡ t.cols * t.size.1

pub Sized-Shape : (fb : Framebuffer) (t : Tightener) → Sized fb t → Shape t
Sized-Shape fb t s = record {
  cols = rw s.width s.cols;
  cells = rw (s.cols, s.height) s.cells;
  bits = rw (s.cols, s.height) s.bits;
}

pub sized-Sized : (fb : Framebuffer) (t : Tightener) → Shape t → Sized fb (sized fb t)
unfolding reset
sized-Sized fb t s = elim (Bool-cases (t.size.0 == fb.width && t.size.1 == fb.height)) [
  | inl same ↦
      let a : t.size.0 ≡ fb.width = ground (arith, same) in
      let b : t.size.1 ≡ fb.height = ground (arith, same) in
      let c : t.cols ≡ cols_of fb = s.cols ∙ ap (λ k. div_ceil k segment) a in
      rw same (record {
        width = a;
        height = b;
        cols = c;
        cells = s.cells ∙ rw (c, b) refl;
        bits = s.bits ∙ rw (c, b) refl;
      })
  | inr other ↦ rw other (record {
    width = refl;
    height = refl;
    cols = refl;
    cells = length-replicate (cols_of fb * fb.height) unknown;
    bits = length-replicate (cols_of fb * fb.height) false;
  })
]

-- What the tables are when the damage is looked at: reset if the size changed, and brought up to
-- date where the reported moves arrive.
abbrev pub followed : (Bytes → ℕ) → Framebuffer → List Move → Tightener → Tightener
followed hash fb moves t = follow_all hash fb moves (sized fb t)

-- The bits after the damage has been gone through: set for cells that were not as the picture has
-- them, and for each such cell that the damage has a pixel of.
pub record Marked (hash : Bytes → ℕ) (fb : Framebuffer) (damage : Region) (t t' : Tightener)
    : Type 0 where
  pub size : Sized fb t'
  pub kept : t'.before ≡ t.before
  pub only : (i : ℕ) → get_or t'.changed i false ≡ true → get_or t.hashes i unknown ≢ seen hash fb i
  pub all :
      (x w : I32)
      → contains_point damage x w ≡ true
      → Rect.contains_point (Framebuffer.bounds fb) x w ≡ true
      → get_or t.hashes (cell_at fb x w) unknown ≢ seen hash fb (cell_at fb x w)
      → bit fb t' x w ≡ true
  pub now :
      (x w : I32)
      → contains_point damage x w ≡ true
      → Rect.contains_point (Framebuffer.bounds fb) x w ≡ true
      → Current hash fb t' (cell_at fb x w)
  pub still : (i : ℕ) → Current hash fb t i → Current hash fb t' i

pub marked-Marked :
    (hash : Bytes → ℕ) (fb : Framebuffer) (damage : Region) (t : Tightener)
    → Narrow fb
    → Sized fb t
    → Marked hash fb damage t (marked hash fb damage t)
unfolding contains_point
marked-Marked hash fb damage t n s =
    let clear : Tightener = record t { changed = replicate (length t.changed) false } in
    let sc : Sized fb clear = record {
      width = s.width;
      height = s.height;
      cols = s.cols;
      cells = s.cells;
      bits = length-replicate (length t.changed) false ∙ s.bits;
    } in
    let m = mark_all_lem hash fb damage.rects clear n sc in
    let g = m.0 in
    record {
      size = g.sized;
      kept = g.before;
      only = λ i h. elim (g.only i h) [
        | inl set ↦
            let off : get_or clear.changed i false ≡ false =
              get_or-replicate false (length t.changed) i in
            absurd (ground (arith, off, set))
        | inr e ↦ e
      ];
      all = λ x w h k e. let c = m.1 x w h k in g.marked (cell_at fb x w) (λ f. e (sym f ∙ c));
      now = m.1;
      still = Good-Current hash fb clear _ g;
    }

pub looked_at-Sized :
    (fb : Framebuffer) (bounds : Rect) (span : Columns) (looking : Bool) (t : Tightener)
    → Sized fb t
    → Sized fb (looked_at bounds span looking t)
looked_at-Sized fb bounds span true t s = record {
  width = s.width;
  height = s.height;
  cols = s.cols;
  cells = s.cells;
  bits = s.bits;
}
looked_at-Sized fb bounds span false t s = s

pub looked_at_hashes :
    (bounds : Rect) (span : Columns) (looking : Bool) (t : Tightener)
    → (looked_at bounds span looking t).hashes ≡ t.hashes
looked_at_hashes bounds span true t = refl
looked_at_hashes bounds span false t = refl
