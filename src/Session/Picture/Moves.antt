-- ===== src/Session/Picture/Moves.antt =====
-- Copies that touch nothing of each other can be left out one by one.
use alloyvnc.Base.{
  ◌+◌, ◌-◌, ◌≤◌, ◌<◌, ◌≡◌, refl, ◌∙◌, inl, inr, Bool, true, false, not, ◌&&◌, ◌||◌, Bool-cases,
  List, [], ◌∷◌, ◌++◌, All, All-append, any, arith, ltb, if◌then◌else◌,
}
use alloyvnc.Base.Words.{I32, i32, add_i32, sub_i32, bias, u32_mod}
use alloyvnc.Region.Rect
use alloyvnc.Region.Rect.{Rect, Move}
use alloyvnc.Region.Rect.Points.{intersects_lem}
use alloyvnc.Session.Frames.{involves}
use alloyvnc.Session.Update.{sendable}
use alloyvnc.Session.Picture.{Picture, apply_move, replay, IsMove, Independent}

-- One side of a move: `s` is where the source starts.
one_side :
    (x x1 x2 s : I32)
    → x1 ≤ x
    → x < x2
    → x2 < x1 + bias
    → s + (x2 - x1) < u32_mod
    → x - x1 + s < add_i32 s (if ltb x1 x2 then sub_i32 x2 x1 else i32 0)
one_side x x1 x2 s a b c d = ground arith

-- The source of a point of `dst` is a point of `src`.
pub contains_point-src :
    (bounds : Rect) (m : Move) (x y : I32)
    → IsMove bounds m
    → Rect.contains_point m.dst x y ≡ true
    → Rect.contains_point (Rect.src m) (x - m.dst.x1 + m.src_x) (y - m.dst.y1 + m.src_y) ≡ true
unfolding Rect.contains_point Rect.src
contains_point-src bounds m x y h p =
    let x_side = one_side x m.dst.x1 m.dst.x2 m.src_x in
    let y_side = one_side y m.dst.y1 m.dst.y2 m.src_y in
    ground (arith, x_side, y_side, h.wide, h.high, h.right, h.bottom)

-- A point of one rectangle is none of another that does not meet it.
pub elsewhere :
    (r q : Rect) (x y : I32)
    → Rect.intersects r q ≡ false
    → Rect.contains_point r x y ≡ true
    → Rect.contains_point q x y ≡ false
elsewhere r q x y h p = let e = (intersects_lem r q).1 x y h in ground (arith, e)

-- The condition that `absorb` checks keeps the copies apart.
pub Independent-append :
    (cs : List Move) (m : Move)
    → Independent cs
    → any (involves m) cs ≡ false
    → Independent (cs ++ m ∷ [])
Independent-append [] m h k = (tt, tt)
Independent-append (c ∷ cs) m h k =
    (All-append _ cs (m ∷ []) h.0 (ground arith, tt), Independent-append cs m h.1 (ground arith))

reads_none :
    (c : Move) (cs : List Move)
    → All (λ m. involves m c ≡ false) cs
    → All (λ m. Rect.intersects c.dst (Rect.src m) ≡ false) cs
reads_none c [] h = tt
reads_none c (m ∷ cs) h = (ground arith, reads_none c cs h.1)

-- The destinations of the copies that are not sent with an update for `area`.
unfoldable pub unsent : Rect → List Move → I32 → I32 → Bool
unsent area [] x y = false
unsent area (m ∷ ms) x y =
    (not (Rect.contains area m.dst) && Rect.contains_point m.dst x y) || unsent area ms x y

module _ {Pixel : Type 0} (bounds : Rect) where
  pub replay-append :
      (ms ns : List Move) (pic : Picture Pixel) (x y : I32)
      → replay (ms ++ ns) pic x y ≡ replay ns (replay ms pic) x y
  replay-append [] ns pic x y = refl
  replay-append (m ∷ ms) ns pic x y = replay-append ms ns (apply_move m pic) x y

  -- Pictures that agree off a rectangle still do after copies that do not read it.
  replay-agrees :
      (ms : List Move) (r : Rect) (f g : Picture Pixel)
      → All (IsMove bounds) ms
      → All (λ m. Rect.intersects r (Rect.src m) ≡ false) ms
      → ((x y : I32) → Rect.contains_point r x y ≡ false → f x y ≡ g x y)
      → (x y : I32) → Rect.contains_point r x y ≡ false
      → replay ms f x y ≡ replay ms g x y
  replay-agrees [] r f g h k e x y p = e x y p
  replay-agrees (m ∷ ms) r f g h k e x y p =
      replay-agrees ms r (apply_move m f) (apply_move m g) h.1 k.1
        (λ x' y' p'. elim (Bool-cases (Rect.contains_point m.dst x' y')) [
          | inl inside ↦
              let at = contains_point-src bounds m x' y' h.0 inside in
              rw inside (
                e _ _ (
                  let n =
                    (intersects_lem r (Rect.src m)).1 (x' - m.dst.x1 + m.src_x)
                      (y' - m.dst.y1 + m.src_y) k.0 in
                  ground (arith, n, at)))
          | inr outside ↦ rw outside (e x' y' p')
        ])
        x y p

  -- Off those destinations, the copies that are sent do what all of them would.
  pub replay-sendable :
      (area : Rect) (ms : List Move) (pic : Picture Pixel)
      → All (IsMove bounds) ms
      → Independent ms
      → (x y : I32) → unsent area ms x y ≡ false
      → replay (sendable area ms) pic x y ≡ replay ms pic x y
  unfolding sendable unsent
  replay-sendable area [] pic h k x y p = refl
  replay-sendable area (m ∷ ms) pic h k x y p = elim (Bool-cases (Rect.contains area m.dst)) [
    | inl goes ↦ rw goes (replay-sendable area ms (apply_move m pic) h.1 k.1 x y (ground arith))
    | inr stays ↦
        let outside : Rect.contains_point m.dst x y ≡ false = ground arith in
        rw stays (
          replay-sendable area ms pic h.1 k.1 x y (ground arith)
          ∙ replay-agrees ms m.dst pic (apply_move m pic) h.1 (reads_none m ms k.0)
              (λ x' y' p'. rw p' refl) x y outside)
  ]
