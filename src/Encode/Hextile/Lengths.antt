-- ===== src/Encode/Hextile/Lengths.antt =====
-- How long a tile of crates/alloyvnc-encode/src/hextile.rs gets.
use native.Mathlib.Nat.{suc-mul}
use alloyvnc.Base.{
  ℕ, zero, suc, ◌+◌, ◌*◌, ◌≤◌, ◌≡◌, refl, inl, inr, Bool, false, Bool-cases, Option, none, List, [],
  ◌∷◌, take, length, is_nil, arith, ltb, if◌then◌else◌,
}
use alloyvnc.Encode.Convert.{le32}
use alloyvnc.Encode.Hextile.{
  Hextile, Count, commonest, other_than, count_keys, count_colours, runs, is_new, one_colour, fresh,
  body_of, described, choose, tile, max_subrects,
}

length-take_le : (n : ℕ) (xs : List ℕ) → length (take n xs) ≤ n
length-take_le zero xs = omega arith
length-take_le (suc n) [] = omega arith
length-take_le (suc n) (x ∷ xs) = let rest = length-take_le n xs in omega (arith, rest)

module _ (bpp : ℕ) (background foreground : Option ℕ) where
  one_colour-length :
      (only : ℕ) (h : Hextile) → length (one_colour bpp background foreground only h).out ≤ 1 + bpp
  one_colour-length only h = elim (Bool-cases (is_new background only)) [
    | inl news ↦ let l = length-take_le bpp (le32 only) in rw news (omega (arith, l))
    | inr old ↦ rw old (omega arith)
  ]

  described-length :
      (bg : ℕ) (coloured : Bool) (fg : Option ℕ) (raw_len : ℕ) (h : Hextile)
      → length h.bytes ≤ raw_len
      → length (described bpp background foreground bg coloured fg raw_len h).out ≤ 1 + raw_len
  unfolding described
  described-length bg coloured fg raw_len h b =
      let body = body_of bpp (is_new background bg) bg (fresh foreground fg) coloured h.subrects in
      elim (Bool-cases (ltb max_subrects (length h.subrects))) [
        | inl many ↦ rw many (omega (arith, b))
        | inr few ↦ elim (Bool-cases (ltb (length body) raw_len)) [
          | inl smaller ↦ rw (few, smaller) (ground (arith, smaller))
          | inr larger ↦ rw (few, larger) (omega (arith, b))
        ]
      ]

  choose-length :
      (counts : List Count) (raw_len : ℕ) (h : Hextile)
      → (is_nil counts ≡ false → bpp ≤ raw_len)
      → length h.bytes ≤ raw_len
      → length (choose bpp background foreground counts raw_len h).out ≤ 1 + raw_len
  unfolding choose runs
  choose-length [] raw_len h n b = omega (arith, b)
  choose-length (only ∷ []) raw_len h n b =
      let l = one_colour-length only.0 h in let m = n refl in omega (arith, l, m)
  choose-length (first ∷ second ∷ counts) raw_len h n b =
      described-length (commonest first (second ∷ counts)).0 (ltb 2 (length h.colours))
        (if ltb 2 (length h.colours)
          then none
          else other_than (commonest first (second ∷ counts)).0 h.colours)
        raw_len (runs (commonest first (second ∷ counts)).0 h) b

  -- A tile is never longer than its pixels and one byte, whatever it holds and whichever colours
  -- carry over to it.
  pub tile-length :
      (h : Hextile)
      → length h.bytes ≡ length h.keys * bpp
      → length (tile bpp background foreground h).out ≤ 1 + length h.bytes
  unfolding tile count_colours count_keys
  tile-length h e =
      let l =
        choose-length (count_keys h.keys []) (length h.keys * bpp) (count_colours h)
          (some_keys h.keys) (omega (arith, e)) in
      omega (arith, l, e)
    where
      some_keys : (keys : List ℕ) → is_nil (count_keys keys []) ≡ false → bpp ≤ length keys * bpp
      some_keys [] n = absurd (ground (arith, n))
      some_keys (k ∷ keys) n =
          let s : suc (length keys) * bpp ≡ length keys * bpp + bpp = suc-mul (length keys) bpp in
          omega (arith, s)
