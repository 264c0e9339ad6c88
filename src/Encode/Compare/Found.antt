-- ===== src/Encode/Compare/Found.antt =====
-- The moves that `tighten` of crates/alloyvnc-encode/src/compare.rs finds.
use mathlib.Core.Path.{subst}
use alloyvnc.Base.{
  ◌+◌, ◌-◌, refl, sym, ap, ◌∙◌, ◌⊎◌, not, ◌&&◌, ◌||◌, ◌==◌, get_or, arith, All-map, ℕ, ◌≡◌, inl,
  inr, Bool, true, false, Bool-cases, Option, List, [], ◌∷◌, All, is_nil, if◌then◌else◌,
}
use alloyvnc.Base.Words.{I32}
use alloyvnc.Region.Rect
use alloyvnc.Region.Rect.{Rect, Move}
use alloyvnc.Region.Bands
use alloyvnc.Region.Bands.{Region, holds, contains_point}
use alloyvnc.Proto.Wire.{Bytes}
use alloyvnc.Encode.Framebuffer
use alloyvnc.Encode.Framebuffer.{Framebuffer}
use alloyvnc.Encode.Compare.{Tightener, Columns, unknown, columns, follow_all}
use alloyvnc.Encode.Compare.Marking.{Narrow, Sized, Current, cell_at, seen}
use alloyvnc.Encode.Compare.Regions.{columns-ColumnsOf}
use alloyvnc.Encode.Compare.Detect.{Votes, detect}
use alloyvnc.Encode.Compare.Tighten.{result, marked, looked_at, sized, tighten_sized, tighten}
use alloyvnc.Encode.Compare.Covers.{Shape, Sized-Shape, sized-Sized, marked-Marked, looked_at-Sized}
use alloyvnc.Encode.Compare.Reported.{tighten-Tells, tighten-Current, sized_same}
use alloyvnc.Encode.Compare.Snapshot.{RowIn}
use alloyvnc.Encode.Compare.Shifts.{arrives, copied, detect-All}

module _ (hash : Bytes → ℕ) (winner : Votes → Option (I32 × ℕ)) (fb : Framebuffer) where
  found_lem :
      (t : Tightener) (damage : Region) (x w : I32) (looking : Bool)
      → Narrow fb
      → Sized fb t
      → let box : Rect = Rect.intersection (Bands.bounds damage) (Framebuffer.bounds fb) in
        let span : Columns = columns t box in
        let t' = marked hash fb damage (looked_at box span looking t) in
        All (λ m. arrives fb t t' x w m ≡ true) (result winner t' box span looking []).moves
  unfolding result
  found_lem t damage x w false n s = tt
  found_lem t damage x w true n s =
      let box : Rect = Rect.intersection (Bands.bounds damage) (Framebuffer.bounds fb) in
      let span : Columns = columns t box in
      let before : Tightener = looked_at box span true t in
      let k = columns-ColumnsOf fb t (Bands.bounds damage) n s in
      let m = marked-Marked hash fb damage before n (looked_at-Sized fb box span true t s) in
      let t' : Tightener = marked hash fb damage before in
      let i : RowIn fb t span = record {
        narrow = n;
        sized = s;
        ordered = k.ordered;
        most = k.most;
      } in
      let moves = detect-All fb t t' box span i m.size k m.kept winner x w in
      if_nil (λ m. arrives fb t t' x w m ≡ true) (detect winner t' box span) moves
    where
      if_nil : (P : Move → Type 0) (l : List Move) → All P l → All P (if is_nil l then [] else l)
      if_nil P [] a = tt
      if_nil P (m ∷ ms) a = a

  found_arrives :
      (t : Tightener) (damage : Region) (x w : I32)
      → Narrow fb
      → Shape t
      → let p = tighten hash winner fb t damage [] in
        All (λ m. arrives fb (sized fb t) p.0 x w m ≡ true) p.1.moves
  unfolding tighten tighten_sized follow_all
  found_arrives t damage x w n s = elim (Bool-cases (is_nil (sized fb t).hashes)) [
    | inl none_left ↦ rw none_left tt
    | inr some_left ↦ rw some_left (found_lem (sized fb t) damage x w _ n (sized-Sized fb t s))
  ]

  -- The damage tells of the pixel's cell: it has a pixel of it, or the cell is as it was.
  abbrev pub Told : Framebuffer → Region → I32 → I32 → Type 0
  Told old damage x w =
      ((x' : I32) × (w' : I32) × ((cell_at fb x' w' ≡ cell_at fb x w)
          × ((contains_point damage x' w' ≡ true)
              × (Rect.contains_point (Framebuffer.bounds fb) x' w' ≡ true))))
      ⊎ (seen hash fb (cell_at fb x w) ≡ seen hash old (cell_at fb x w))

  -- The pixel is not where the move arrives, or it comes from inside the picture, and its cell has
  -- the hash that the cell it comes from had in the old picture.
  unfoldable pub comes_from : Framebuffer → I32 → I32 → Move → Bool
  comes_from old x w m =
      not (Rect.contains_point m.dst x w)
      || (m.src_x == m.dst.x1
          && (Rect.contains_point (Framebuffer.bounds fb) x (w + m.src_y - m.dst.y1)
              && seen hash fb (cell_at fb x w)
                == seen hash old (cell_at fb x (w + m.src_y - m.dst.y1))))

  now_Current :
      (old : Framebuffer) (t : Tightener) (damage : Region) (x w : I32)
      → Narrow fb
      → Sized fb t
      → ((a b : I32)
          → Rect.contains_point (Framebuffer.bounds fb) a b ≡ true
          → Current hash old t (cell_at fb a b))
      → Told old damage x w
      → Rect.contains_point (Framebuffer.bounds fb) x w ≡ true
      → Current hash fb (tighten hash winner fb t damage []).0 (cell_at fb x w)
  unfolding follow_all
  now_Current old t damage x w n s known (inl hit) b =
      subst (Current hash fb (tighten hash winner fb t damage []).0) hit.2.0 (
        tighten-Current hash winner fb t damage [] hit.0 hit.1 n (Sized-Shape fb t s)
          (let h = hit.2.1.0 in ground (arith, h)) hit.2.1.1)
  now_Current old t damage x w n s known (inr same) b =
      (tighten-Tells hash winner fb t damage [] n (Sized-Shape fb t s)).still x w b (
        ap (λ u. get_or u.hashes (cell_at fb x w) unknown) (sized_same hash winner fb t s)
        ∙ (known x w b ∙ sym same))

  same_cells :
      (old : Framebuffer) (t t' : Tightener) (x w : I32) (m : Move)
      → ((a b : I32)
          → Rect.contains_point (Framebuffer.bounds fb) a b ≡ true
          → Current hash old t (cell_at fb a b))
      → Current hash fb t' (cell_at fb x w)
      → arrives fb t t' x w m ≡ true
      → comes_from old x w m ≡ true
  unfolding arrives copied comes_from
  same_cells old t t' x w m known here h = elim (Bool-cases (Rect.contains_point m.dst x w)) [
    | inl hit ↦
        let row : I32 = w + m.src_y - m.dst.y1 in
        let b : Rect.contains_point (Framebuffer.bounds fb) x row ≡ true = ground (arith, h, hit) in
        let there = known x row b in ground (arith, h, hit, here, there, b)
    | inr miss ↦ rw miss refl
  ]

  -- Each move that is found where none was reported can be followed by one who has the old picture:
  -- if the tables are of the picture's size and have the hash of every cell of the old picture, a
  -- pixel of the picture whose cell the damage tells of, where a move that is found arrives, is in
  -- a cell that has the hash that the cell it comes from had in the old picture, and it comes from
  -- inside the picture. This holds whichever of the shifts the vote names, or if it names another.
  pub tighten-arrives :
      (old : Framebuffer) (t : Tightener) (damage : Region) (x w : I32)
      → Narrow fb
      → Sized fb t
      → ((a b : I32)
          → Rect.contains_point (Framebuffer.bounds fb) a b ≡ true
          → Current hash old t (cell_at fb a b))
      → Told old damage x w
      → Rect.contains_point (Framebuffer.bounds fb) x w ≡ true
      → All (λ m. comes_from old x w m ≡ true) (tighten hash winner fb t damage []).1.moves
  tighten-arrives old t damage x w n s known told b =
      let t' : Tightener = (tighten hash winner fb t damage []).0 in
      let here = now_Current old t damage x w n s known told b in
      All-map
        (λ m h.
          same_cells old t t' x w m known here
            (subst (λ u. arrives fb u t' x w m ≡ true) (sized_same hash winner fb t s) h))
        (tighten hash winner fb t damage []).1.moves
        (found_arrives t damage x w n (Sized-Shape fb t s))
