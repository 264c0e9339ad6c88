-- ===== src/Region/Bands.antt =====
-- `Region` of crates/alloyvnc-region/src/lib.rs: a set of pixels as y-x banded rectangles, and
-- `op`, the one walk over the bands behind union, intersection and subtraction. The standard
-- library's `sort_unstable` is insertion sort here, which gives the same list: the order is total.
pub mod Edges
pub mod Strips
pub mod Cover
pub mod Normal
pub mod Laws
pub mod Edits
pub mod Rows
mod Tests
use alloyvnc.Base.{
  ℕ, ◌+◌, Bool, true, false, ◌&&◌, ◌||◌, Option, none, some, List, [], ◌∷◌, ◌++◌, map, any, length,
  ltb, leb, ◌==◌, if◌then◌else◌,
}
use alloyvnc.Base.Words.{I32}
use alloyvnc.Region.Rect
use alloyvnc.Region.Rect.{Rect}
use alloyvnc.Region.Spans.{Span, union_spans, intersect_spans, subtract_spans}

pub record Region : Type 0 where
  pub rects : List Rect

pub data Op : Type 0 where
  union_op intersect_op subtract_op : Op

abbrev pub new : Region
new = record { rects = [] }

unfoldable pub from_rect : Rect → Region
unfolding Rect.is_empty
from_rect r = if Rect.is_empty r then new else record { rects = r ∷ [] }

unfoldable pub is_empty_list : List Rect → Bool
is_empty_list [] = true
is_empty_list (r ∷ rs) = false

unfoldable pub is_empty : Region → Bool
unfolding is_empty_list
is_empty a = is_empty_list a.rects

unfoldable pub len : Region → ℕ
len a = length a.rects

unfoldable pub bounds_from : Rect → List Rect → Rect
bounds_from b [] = b
bounds_from b (r ∷ rs) = bounds_from (Rect.union_bounds b r) rs

unfoldable pub bounds : Region → Rect
unfolding bounds_from Rect.union_bounds
bounds a = bounds_from Rect.empty a.rects

-- Some rectangle holds the point.
abbrev pub holds : I32 → I32 → List Rect → Bool
holds x y = any (λ r. Rect.contains_point r x y)

unfoldable pub contains_point : Region → I32 → I32 → Bool
contains_point a x y = holds x y a.rects

unfoldable pub intersects_rect : Region → Rect → Bool
unfolding Rect.intersects
intersects_rect a r = any (λ q. Rect.intersects q r) a.rects

-- The order of pairs of `i32`.
abbrev pub leb_span : Span → Span → Bool
leb_span s t = ltb s.0 t.0 || (s.0 == t.0 && leb s.1 t.1)

pub insert_span : Span → List Span → List Span
insert_span s [] = s ∷ []
insert_span s (t ∷ l) = let rest = insert_span s l in if leb_span s t then s ∷ t ∷ l else t ∷ rest

pub sort_spans : List Span → List Span
unfolding insert_span
sort_spans [] = []
sort_spans (s ∷ l) = insert_span s (sort_spans l)

-- `filter` and `map` of `band_spans`
pub spans_across : List Rect → I32 → I32 → List Span
spans_across [] y1 y2 = []
spans_across (r ∷ rs) y1 y2 =
    let rest = spans_across rs y1 y2 in
    if leb r.y1 y1 && leb y2 r.y2 then (r.x1, r.x2) ∷ rest else rest

pub band_spans : List Rect → I32 → I32 → List Span
unfolding sort_spans spans_across
band_spans rects y1 y2 = sort_spans (spans_across rects y1 y2)

pub insert_edge : I32 → List I32 → List I32
insert_edge e [] = e ∷ []
insert_edge e (f ∷ l) = let rest = insert_edge e l in if leb e f then e ∷ f ∷ l else f ∷ rest

pub sort_edges : List I32 → List I32
unfolding insert_edge
sort_edges [] = []
sort_edges (e ∷ l) = insert_edge e (sort_edges l)

-- `dedup` keeps the first of each run of equal elements; `last` is the one kept before.
pub dedup_after : I32 → List I32 → List I32
dedup_after last [] = []
dedup_after last (e ∷ l) =
    let skipped = dedup_after last l in
    let kept = dedup_after e l in if e == last then skipped else e ∷ kept

pub dedup : List I32 → List I32
unfolding dedup_after
dedup [] = []
dedup (e ∷ l) = e ∷ dedup_after e l

-- `flat_map(|r| [r.y1, r.y2])`
pub y_edges : List Rect → List I32
y_edges [] = []
y_edges (r ∷ rs) = r.y1 ∷ r.y2 ∷ y_edges rs

-- The sorted edges of both sides.
unfoldable pub edges_of : List Rect → List Rect → List I32
unfolding sort_edges dedup y_edges
edges_of a b = dedup (sort_edges (y_edges a ++ y_edges b))

pub combine : Op → List Span → List Span → List Span
unfolding union_spans intersect_spans subtract_spans
combine union_op sa sb = union_spans sa sb
combine intersect_op sa sb = intersect_spans sa sb
combine subtract_op sa sb = subtract_spans sa sb

-- `(y1, y2, spans)` of the band that is still open
pub record Band : Type 0 where
  pub y1 : I32
  pub y2 : I32
  pub spans : List Span

pub flush_spans : I32 → I32 → List Span → List Rect
flush_spans y1 y2 [] = []
flush_spans y1 y2 ((x1, x2) ∷ l) =
    record { x1 = x1; y1 = y1; x2 = x2; y2 = y2 } ∷ flush_spans y1 y2 l

-- What `flush` moves to the output; the open band is `None` after it.
pub flush : Option Band → List Rect
unfolding flush_spans
flush none = []
flush (some o) = flush_spans o.y1 o.y2 o.spans

pub eq_spans : List Span → List Span → Bool
eq_spans [] [] = true
eq_spans (s ∷ l) (t ∷ m) = (s.0 == t.0 && s.1 == t.1) && eq_spans l m
eq_spans _ _ = false

-- `if let Some((_, oy2, ospans)) = &mut open && *oy2 == y1 && *ospans == spans`
pub continues : Option Band → I32 → List Span → Bool
unfolding eq_spans
continues none y1 spans = false
continues (some o) y1 spans = o.y2 == y1 && eq_spans o.spans spans

pub stretch : Option Band → I32 → Option Band
stretch none y2 = none
stretch (some o) y2 = some (record o { y2 = y2 })

-- One round of the loop: what goes to the output, and the band that is open after it.
unfoldable pub band_step : Option Band → I32 → I32 → List Span → List Rect × Option Band
unfolding flush continues stretch
band_step open' y1 y2 [] = (flush open', none)
band_step open' y1 y2 (s ∷ l) =
    if continues open' y1 (s ∷ l)
    then ([], stretch open' y2)
    else (flush open', some (record { y1 = y1; y2 = y2; spans = s ∷ l }))

-- `for pair in edges.windows(2)`, from the edge `y1` on, and the last `flush`.
unfoldable pub band_loop : Op → List Rect → List Rect → Option Band → I32 → List I32 → List Rect
unfolding combine band_spans band_step
band_loop kind a b open' y1 [] = flush open'
band_loop kind a b open' y1 (y2 ∷ edges) =
    let spans : List Span = combine kind (band_spans a y1 y2) (band_spans b y1 y2) in
    let step : List Rect × Option Band = band_step open' y1 y2 spans in
    step.0 ++ band_loop kind a b step.1 y2 edges

unfoldable pub band_walk : Op → List Rect → List Rect → List I32 → List Rect
unfolding band_loop
band_walk kind a b [] = []
band_walk kind a b (y1 ∷ edges) = band_loop kind a b none y1 edges

-- The early returns of `op`.
unfoldable pub shortcut : Op → Region → Region → Option Region
unfolding is_empty
shortcut union_op a b = if is_empty a then some b else if is_empty b then some a else none
shortcut intersect_op a b = if is_empty a || is_empty b then some new else none
shortcut subtract_op a b = if is_empty a then some new else if is_empty b then some a else none

unfoldable pub op : Op → Region → Region → Region
unfolding shortcut edges_of band_walk
op kind a b = elim (shortcut kind a b) [
  | some r ↦ r
  | none ↦ record { rects = band_walk kind a.rects b.rects (edges_of a.rects b.rects) }
]

unfoldable pub union : Region → Region → Region
unfolding op
union a b = op union_op a b

unfoldable pub intersect : Region → Region → Region
unfolding op
intersect a b = op intersect_op a b

unfoldable pub subtract : Region → Region → Region
unfolding op
subtract a b = op subtract_op a b

unfoldable pub intersect_rect : Region → Rect → Region
unfolding intersect from_rect
intersect_rect a r = intersect a (from_rect r)

unfoldable pub add : Region → Rect → Region
unfolding union from_rect Rect.is_empty
add a r = if Rect.is_empty r then a else union a (from_rect r)

pub remove : Region → Rect → Region
unfolding subtract from_rect is_empty Rect.is_empty
remove a r = if Rect.is_empty r || is_empty a then a else subtract a (from_rect r)

-- `for r in rects { out.add(r) }`
pub add_all : Region → List Rect → Region
unfolding add
add_all out [] = out
add_all out (r ∷ rs) = add_all (add out r) rs

pub from_rects : List Rect → Region
unfolding add_all
from_rects rects = add_all new rects

pub translate : Region → I32 → I32 → Region
unfolding Rect.translate
translate a dx dy = record { rects = map (λ r. Rect.translate r dx dy) a.rects }

pub clear : Region → Region
clear a = record { rects = [] }
