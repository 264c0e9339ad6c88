-- ===== src/Encode/Compare/Tests.antt =====
-- A small picture that changes and one that scrolls, and the theorems at them.
use alloyvnc.Base.{
  ℕ, ◌+◌, ◌*◌, ◌%◌, ◌≡◌, ◌≢◌, refl, inl, true, false, ◌||◌, Option, none, some, List, [], ◌∷◌, All,
  length, get_or, leb, arith, if◌then◌else◌,
}
use alloyvnc.Base.Words.{I32, i32, u64_mod}
use alloyvnc.Region.Rect
use alloyvnc.Region.Rect.{Rect, Move}
use alloyvnc.Region.Bands
use alloyvnc.Region.Bands.{Region, contains_point, from_rect}
use alloyvnc.Proto.Wire.{Bytes}
use alloyvnc.Encode.Framebuffer
use alloyvnc.Encode.Framebuffer.{Framebuffer}
use alloyvnc.Encode.Compare.{Tightener, Tightened, new, unknown, snapshot_rows}
use alloyvnc.Region.Bands.Rows.{from_rows}
use alloyvnc.Encode.Compare.Detect.{Votes}
use alloyvnc.Encode.Compare.Tighten.{tighten, sized}
use alloyvnc.Encode.Compare.Marking.{Narrow, Sized, Current, cell_at, seen}
use alloyvnc.Encode.Compare.Passes.{lands}
use alloyvnc.Encode.Compare.Covers.{Shape, Sized-Shape, followed}
use alloyvnc.Encode.Compare.Reported.{tighten-Tells, tighten_lem, tighten_only, tighten-Current}
use alloyvnc.Encode.Compare.Again.{tighten-tighten}
use alloyvnc.Encode.Compare.Found.{Told, comes_from, tighten-arrives}

-- A hash to try things with.
abbrev sum : Bytes → ℕ
sum [] = 7
sum (b ∷ bs) = (sum bs * 31 + b) % u64_mod

-- The first of the shifts with most votes.
abbrev most : Votes → Option (I32 × ℕ)
most [] = none
most ((dy, n) ∷ votes) = elim (most votes) [
  | none ↦ some (dy, n)
  | some best ↦ if leb best.1 n then some (dy, n) else some best
]

abbrev column : ℕ → List ℕ → Bytes
column n [] = []
column n (v ∷ vs) = v ∷ n ∷ v ∷ 0 ∷ column n vs

-- A picture one pixel wide.
abbrev strip : List ℕ → Framebuffer
strip vs = record { width = 1; height = length vs; pixels = column 5 vs }

abbrev before : Framebuffer
before = strip (1 ∷ 2 ∷ 3 ∷ 4 ∷ 5 ∷ 6 ∷ 7 ∷ 8 ∷ 9 ∷ 10 ∷ 11 ∷ 12 ∷ [])

abbrev after : Framebuffer
after = strip (3 ∷ 4 ∷ 5 ∷ 6 ∷ 7 ∷ 8 ∷ 9 ∷ 10 ∷ 11 ∷ 12 ∷ 13 ∷ 14 ∷ [])

before-Narrow : Narrow before
before-Narrow = record { across = omega arith; down = omega arith }

after-Narrow : Narrow after
after-Narrow = record { across = omega arith; down = omega arith }

abbrev whole : Region
whole = record { rects = record { x1 = i32 0; y1 = i32 0; x2 = i32 1; y2 = i32 12 } ∷ [] }

new-Shape : Shape new
new-Shape = record { cols = refl; cells = refl; bits = refl }

abbrev first : Tightener × Tightened
first = tighten sum most before new whole []

abbrev second : Tightener × Tightened
second = tighten sum most after first.0 whole []

-- A scroll by two rows is told as one copy.
scrolled :
    second.1.moves
    ≡ record {
      src_x = i32 0;
      src_y = i32 2;
      dst = record { x1 = i32 0; y1 = i32 0; x2 = i32 1; y2 = i32 10 };
    }
      ∷ []
unfolding tighten Rect.is_empty Rect.intersection Framebuffer.bounds Rect.new Rect.height
    Bands.bounds Framebuffer.row_span snapshot_rows from_rows
scrolled = refl

first-Sized : Sized before first.0
first-Sized = (tighten-Tells sum most before new whole [] before-Narrow new-Shape).size

first-Shape : Shape first.0
first-Shape = Sized-Shape before first.0 first-Sized

-- A picture of three pixels, and the same with another pixel in its last row.
abbrev three : Framebuffer
three = strip (1 ∷ 2 ∷ 3 ∷ [])

abbrev changed : Framebuffer
changed = strip (1 ∷ 2 ∷ 4 ∷ [])

three-Narrow : Narrow three
three-Narrow = record { across = omega arith; down = omega arith }

changed-Narrow : Narrow changed
changed-Narrow = record { across = omega arith; down = omega arith }

abbrev seen_three : Tightener
seen_three = (tighten sum most three new whole []).0

three-Shape : Shape seen_three
three-Shape =
    Sized-Shape three seen_three
      (tighten-Tells sum most three new whole [] three-Narrow new-Shape).size

other_hash :
    get_or (sized changed seen_three).hashes (cell_at changed (i32 0) (i32 2)) unknown
    ≢ seen sum changed (cell_at changed (i32 0) (i32 2))
unfolding tighten Rect.is_empty Rect.intersection Framebuffer.bounds Rect.new Rect.height
    Bands.bounds Framebuffer.row_span snapshot_rows from_rows
other_hash e = absurd (omega (arith, e))

tighten_lem_example :
    contains_point (tighten sum most changed seen_three whole []).1.damage (i32 0) (i32 2)
      || lands (i32 0) (i32 2) (tighten sum most changed seen_three whole []).1.moves
    ≡ true
unfolding contains_point Rect.contains_point Framebuffer.bounds Rect.new
tighten_lem_example =
    tighten_lem sum most changed seen_three whole (i32 0) (i32 2) changed-Narrow three-Shape refl
      refl other_hash

reported_row :
    contains_point (tighten sum most changed seen_three whole []).1.damage (i32 0) (i32 2) ≡ true
unfolding tighten contains_point Rect.contains_point Rect.is_empty Rect.intersection
    Framebuffer.bounds Rect.new Rect.height Bands.bounds Framebuffer.row_span snapshot_rows
    from_rows
reported_row = refl

tighten_only_example :
    (Rect.contains_point (Framebuffer.bounds changed) (i32 0) (i32 2) ≡ true)
    × ((get_or (followed sum changed [] seen_three).hashes (cell_at changed (i32 0) (i32 2)) unknown
          ≢ seen sum changed (cell_at changed (i32 0) (i32 2)))
        × (lands (i32 0) (i32 2) (tighten sum most changed seen_three whole []).1.moves ≡ false))
tighten_only_example =
    tighten_only sum most changed seen_three whole [] (i32 0) (i32 2) changed-Narrow three-Shape
      reported_row

tighten-Current_example :
    Current sum after (tighten sum most after first.0 whole []).0 (cell_at after (i32 0) (i32 3))
unfolding contains_point Rect.contains_point Framebuffer.bounds Rect.new
tighten-Current_example =
    tighten-Current sum most after first.0 whole [] (i32 0) (i32 3) after-Narrow first-Shape refl
      refl

in_whole :
    (x w : I32)
    → Rect.contains_point (Framebuffer.bounds before) x w ≡ true
    → contains_point whole x w || lands x w [] ≡ true
unfolding contains_point Framebuffer.bounds Rect.new
in_whole x w h = ground (arith, h)

tighten-tighten_example :
    (contains_point (tighten sum most before first.0 whole []).1.damage (i32 0) (i32 11) ≡ false)
    × ((tighten sum most before first.0 whole []).1.moves ≡ [])
tighten-tighten_example =
    tighten-tighten sum most before new whole whole [] (i32 0) (i32 11) before-Narrow new-Shape
      in_whole

after-Sized : Sized after first.0
after-Sized =
    let s = first-Sized in
    record { width = s.width; height = s.height; cols = s.cols; cells = s.cells; bits = s.bits }

first-Current :
    (x w : I32)
    → Rect.contains_point (Framebuffer.bounds after) x w ≡ true
    → Current sum before first.0 (cell_at after x w)
unfolding Framebuffer.bounds
first-Current x w h =
    tighten-Current sum most before new whole [] x w before-Narrow new-Shape (in_whole x w h) h

fourth-Told : Told sum most after before whole (i32 0) (i32 4)
unfolding contains_point Rect.contains_point Framebuffer.bounds Rect.new
fourth-Told = inl (i32 0, i32 4, (refl, (refl, refl)))

tighten-arrives_example :
    All (λ m. comes_from sum most after before (i32 0) (i32 4) m ≡ true) second.1.moves
unfolding Rect.contains_point Framebuffer.bounds Rect.new
tighten-arrives_example =
    tighten-arrives sum most after before first.0 whole (i32 0) (i32 4) after-Narrow after-Sized
      first-Current fourth-Told refl
