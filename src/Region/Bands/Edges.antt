-- ===== src/Region/Bands/Edges.antt =====
-- The sorted edges of `op` (crates/alloyvnc-region/src/lib.rs): strictly rising, and every top and
-- bottom edge of either side is among them.
use alloyvnc.Base.{
  ◌≤◌, ◌<◌, ◌≡◌, refl, ◌⊎◌, inl, inr, Bool-cases, List, [], ◌∷◌, ◌++◌, All, All-map, arith, leb,
  leb→le, leb→lt, ◌==◌, ==→≡, ==→≢,
}
use alloyvnc.Base.Words.{I32}
use alloyvnc.Region.Rect.{Rect}
use alloyvnc.Region.Bands.{insert_edge, sort_edges, dedup_after, dedup, y_edges, edges_of}

infix 40 ◌∈◌
abbrev pub ◌∈◌ : I32 → List I32 → Type 0
v ∈ [] = ⊥
v ∈ (e ∷ l) = (v ≡ e) ⊎ (v ∈ l)

abbrev AtLeast : I32 → List I32 → Type 0
AtLeast lo [] = Unit
AtLeast lo (e ∷ l) = (lo ≤ e) × AtLeast e l

abbrev pub Above : I32 → List I32 → Type 0
Above lo [] = Unit
Above lo (e ∷ l) = (lo < e) × Above e l

insert_edge-AtLeast :
    (lo e : I32) (l : List I32) → lo ≤ e → AtLeast lo l → AtLeast lo (insert_edge e l)
unfolding insert_edge
insert_edge-AtLeast lo e [] h a = (h, tt)
insert_edge-AtLeast lo e (f ∷ l) h a = elim (Bool-cases (leb e f)) [
  | inl le ↦ rw (le, insert_edge) (h, (leb→le e f le, a.1))
  | inr gt ↦
      let lt = leb→lt e f gt in
      rw (gt, insert_edge) (a.0, insert_edge-AtLeast f e l (omega arith) a.1)
]

sort_edges-AtLeast : (l : List I32) → AtLeast 0 (sort_edges l)
unfolding sort_edges
sort_edges-AtLeast [] = tt
sort_edges-AtLeast (e ∷ l) =
    insert_edge-AtLeast 0 e (sort_edges l) (omega arith) (sort_edges-AtLeast l)

dedup_after-Above : (last : I32) (l : List I32) → AtLeast last l → Above last (dedup_after last l)
unfolding dedup_after
dedup_after-Above last [] a = tt
dedup_after-Above last (e ∷ l) a = elim (Bool-cases (e == last)) [
  | inl same ↦ rw (same, dedup_after) (dedup_after-Above last l (rw (==→≡ e last same) at a.1))
  | inr other ↦
      let ne = ==→≢ e last other in rw (other, dedup_after) (omega arith, dedup_after-Above e l a.1)
]

mem-insert_edge : (v e : I32) (l : List I32) → (v ≡ e) ⊎ (v ∈ l) → v ∈ insert_edge e l
unfolding insert_edge
mem-insert_edge v e [] h = h
mem-insert_edge v e (f ∷ l) h = ground (arith, mem-insert_edge v e l)

mem-sort_edges : (v : I32) (l : List I32) → v ∈ l → v ∈ sort_edges l
unfolding sort_edges
mem-sort_edges v [] h = h
mem-sort_edges v (e ∷ l) (inl same) = mem-insert_edge v e (sort_edges l) (inl same)
mem-sort_edges v (e ∷ l) (inr later) =
    mem-insert_edge v e (sort_edges l) (inr (mem-sort_edges v l later))

mem-dedup_after : (v last : I32) (l : List I32) → v ∈ l → (v ≡ last) ⊎ (v ∈ dedup_after last l)
unfolding dedup_after
mem-dedup_after v last [] h = absurd h
mem-dedup_after v last (e ∷ l) h = ground (arith, mem-dedup_after v last l, mem-dedup_after v e l)

mem-dedup : (v : I32) (l : List I32) → v ∈ l → v ∈ dedup l
unfolding dedup
mem-dedup v [] h = h
mem-dedup v (e ∷ l) (inl same) = inl same
mem-dedup v (e ∷ l) (inr later) = mem-dedup_after v e l later

mem-append : (v : I32) (l m : List I32) → (v ∈ l) ⊎ (v ∈ m) → v ∈ l ++ m
mem-append v [] m h = ground arith
mem-append v (e ∷ l) m h = ground (arith, mem-append v l m)

-- The edges of the rectangles are among `es`.
abbrev pub EdgesIn : List I32 → List Rect → Type 0
EdgesIn es = All (λ r. (r.y1 ∈ es) × (r.y2 ∈ es))

y_edges-EdgesIn :
    (rs : List Rect) (es : List I32) → ((v : I32) → v ∈ y_edges rs → v ∈ es) → EdgesIn es rs
unfolding y_edges
y_edges-EdgesIn [] es h = tt
y_edges-EdgesIn (r ∷ rs) es h =
    ((h r.y1 (inl refl), h r.y2 (inr (inl refl))), y_edges-EdgesIn rs es (λ v m. h v (inr (inr m))))

pub edges_of-EdgesIn : (a b : List Rect) → EdgesIn (edges_of a b) a × EdgesIn (edges_of a b) b
unfolding edges_of
edges_of-EdgesIn a b =
    let all = λ (v : I32) (m : v ∈ y_edges a ++ y_edges b).
      mem-dedup v (sort_edges (y_edges a ++ y_edges b))
        (mem-sort_edges v (y_edges a ++ y_edges b) m) in
    (
      y_edges-EdgesIn a (edges_of a b)
          (λ v m. all v (mem-append v (y_edges a) (y_edges b) (inl m))),
      y_edges-EdgesIn b (edges_of a b)
          (λ v m. all v (mem-append v (y_edges a) (y_edges b) (inr m))),
    )

-- The first edge is the smallest, and each is smaller than the next.
abbrev pub IsStrict : List I32 → Type 0
IsStrict [] = Unit
IsStrict (e ∷ l) = Above e l

dedup-IsStrict : (lo : I32) (l : List I32) → AtLeast lo l → IsStrict (dedup l)
unfolding dedup
dedup-IsStrict lo [] a = tt
dedup-IsStrict lo (e ∷ l) a = dedup_after-Above e l a.1

pub edges_of-IsStrict : (a b : List Rect) → IsStrict (edges_of a b)
unfolding edges_of
edges_of-IsStrict a b =
    dedup-IsStrict 0 (sort_edges (y_edges a ++ y_edges b))
      (sort_edges-AtLeast (y_edges a ++ y_edges b))

-- Where an edge lies in a walk that has come to `prev` and has the edges `es` before it.
abbrev pub Passed : I32 → List I32 → I32 → Type 0
Passed prev es v = (v ≤ prev) ⊎ (v ∈ es)

abbrev pub Walked : I32 → List I32 → List Rect → Type 0
Walked prev es = All (λ r. Passed prev es r.y1 × Passed prev es r.y2)

pub Walked-step :
    (prev e : I32) (es : List I32) (rs : List Rect)
    → prev < e
    → Walked prev (e ∷ es) rs
    → Walked e es rs
Walked-step prev e es rs h w = All-map (λ r p. (step r.y1 p.0, step r.y2 p.1)) rs w
  where
    step : (v : I32) → Passed prev (e ∷ es) v → Passed e es v
    step v p = ground arith

pub EdgesIn-Walked :
    (e : I32) (es : List I32) (rs : List Rect) → EdgesIn (e ∷ es) rs → Walked e es rs
EdgesIn-Walked e es rs h = All-map (λ r p. (first r.y1 p.0, first r.y2 p.1)) rs h
  where
    first : (v : I32) → v ∈ (e ∷ es) → Passed e es v
    first v p = ground arith

mem-Above : (v lo : I32) (l : List I32) → Above lo l → v ∈ l → lo < v
mem-Above v lo [] a m = absurd m
mem-Above v lo (e ∷ l) a m = ground (arith, mem-Above v e l)

-- No edge lies strictly inside a band.
pub Passed-sides :
    (prev e v : I32) (es : List I32)
    → Above prev (e ∷ es)
    → Passed prev (e ∷ es) v
    → (v ≤ prev) ⊎ (e ≤ v)
Passed-sides prev e v es a p = ground (arith, mem-Above v e es)

-- Every edge lies at the first one or below it.
pub mem-first : (v e : I32) (es : List I32) → Above e es → v ∈ (e ∷ es) → e ≤ v
mem-first v e es a m = ground (arith, mem-Above v e es)
