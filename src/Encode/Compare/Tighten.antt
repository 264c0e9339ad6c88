-- ===== src/Encode/Compare/Tighten.antt =====
-- `tighten` of crates/alloyvnc-encode/src/compare.rs.
use alloyvnc.Base.{
  ℕ, Bool, false, ◌&&◌, Option, List, [], ◌∷◌, length, replicate, is_nil, ltb, ◌==◌, if◌then◌else◌,
}
use alloyvnc.Base.Words.{I32, i32}
use alloyvnc.Region.Rect
use alloyvnc.Region.Rect.{Rect, Move}
use alloyvnc.Region.Bands
use alloyvnc.Region.Bands.{Region}
use alloyvnc.Proto.Wire.{Bytes}
use alloyvnc.Encode.Framebuffer
use alloyvnc.Encode.Framebuffer.{Framebuffer}
use alloyvnc.Encode.Compare.{
  Tightener, Tightened, Columns, min_run, reset, columns, snapshot, follow_all, mark_all, region,
}
use alloyvnc.Encode.Compare.Detect.{Votes, detect}

-- `for m in &moves { damage.remove(m.dst); }`
unfoldable pub remove_all : List Move → Region → Region
remove_all [] damage = damage
remove_all (m ∷ ms) damage = remove_all ms (Bands.remove damage m.dst)

abbrev pub detecting : Rect → Columns → List Move → Bool
detecting bounds span moves =
    is_nil moves && (ltb (i32 min_run) (Rect.height bounds) && ltb span.0 span.1)

-- From the rehash of the damage on.
unfoldable pub result :
    (Votes → Option (I32 × ℕ)) → Tightener → Rect → Columns → Bool → List Move → Tightened
unfolding detect region remove_all
result winner t bounds span looking moves =
    let found : List Move = if looking then detect winner t bounds span else [] in
    let moves' : List Move = if is_nil found then moves else found in
    record { damage = remove_all moves' (region t bounds span); moves = moves' }

-- `self.changed.fill(0)` and the loops over the damage.
abbrev pub marked : (Bytes → ℕ) → Framebuffer → Region → Tightener → Tightener
marked hash fb damage t =
    mark_all hash fb damage.rects (record t { changed = replicate (length t.changed) false })

abbrev pub looked_at : Rect → Columns → Bool → Tightener → Tightener
looked_at bounds span looking t = if looking then snapshot bounds span t else t

abbrev pub sized : Framebuffer → Tightener → Tightener
sized fb t =
    if t.size.0 == fb.width && t.size.1 == fb.height then t else reset t (fb.width, fb.height)

module _ (hash : Bytes → ℕ) (winner : Votes → Option (I32 × ℕ)) (fb : Framebuffer) where
  unfoldable pub tighten_sized : Tightener → Region → List Move → Tightener × Tightened
  unfolding follow_all mark_all columns result
  tighten_sized t damage moves =
      let followed : Tightener = follow_all hash fb moves t in
      let bounds : Rect = Rect.intersection (Bands.bounds damage) (Framebuffer.bounds fb) in
      let span : Columns = columns followed bounds in
      let looking : Bool = detecting bounds span moves in
      let t' : Tightener = marked hash fb damage (looked_at bounds span looking followed) in
      (t', result winner t' bounds span looking moves)

  unfoldable pub tighten : Tightener → Region → List Move → Tightener × Tightened
  unfolding reset tighten_sized
  tighten t damage moves =
      if is_nil (sized fb t).hashes
      then (sized fb t, record { damage = Bands.new; moves = [] })
      else tighten_sized (sized fb t) damage moves
