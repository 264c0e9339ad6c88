-- ===== src/Session/Picture/Absorb.antt =====
-- A frame keeps what the session believes of its client true (`absorb` of
-- crates/alloyvnc/src/session.rs).
use alloyvnc.Base.{
  ◌≡◌, refl, ◌∙◌, sym, inl, inr, Bool, true, false, Bool-cases, List, [], ◌∷◌, ◌++◌, All,
  All-append, any, arith,
}
use alloyvnc.Base.Words.{I32}
use alloyvnc.Region.Rect
use alloyvnc.Region.Rect.{Rect, Move}
use alloyvnc.Region.Rect.Points.{contains_lem, intersects_lem}
use alloyvnc.Region.Bands
use alloyvnc.Region.Bands.{Region, holds}
use alloyvnc.Region.Bands.Strips.{IsNormal}
use alloyvnc.Region.Bands.Laws.{union-Gives}
use alloyvnc.Region.Bands.Edits.{add-remove, from_rect-Gives}
use alloyvnc.Proto.Encoding
use alloyvnc.Encode.Framebuffer
use alloyvnc.Session.{Session, Shared, FrameEvent, supports}
use alloyvnc.Session.Frames.{involves, is_clean, absorb_move, absorb_moves, absorb_resize, absorb}
use alloyvnc.Session.Picture.{Picture, apply_move, replay, IsMove, Knows}
use alloyvnc.Session.Picture.Moves.{contains_point-src, replay-append, Independent-append}

-- A rectangle that the region does not meet has no point in it.
pub intersects_rect_lem :
    (a : Region) (r : Rect) (x y : I32)
    → Bands.intersects_rect a r ≡ false
    → Rect.contains_point r x y ≡ true
    → Bands.contains_point a x y ≡ false
unfolding Bands.intersects_rect Bands.contains_point
intersects_rect_lem a r x y h p = go a.rects h
  where
    go : (rs : List Rect) → any (λ q. Rect.intersects q r) rs ≡ false → holds x y rs ≡ false
    go [] e = refl
    go (q ∷ rs) e =
        let here : Rect.contains_point q x y ≡ false = ground (arith, swap q) in
        let there : holds x y rs ≡ false = go rs (ground arith) in ground arith
      where
        swap : (q : Rect) → Rect.intersects q r ≡ false → Rect.contains_point q x y ≡ false
        swap q e = let n = (intersects_lem q r).1 x y e in ground (arith, n, p)

module _ {Pixel : Type 0} (bounds : Rect) (client screen : Picture Pixel) where
  -- The move becomes a copy.
  carried :
      (pending : Region) (copies : List Move) (m : Move)
      → IsMove bounds m
      → Bands.intersects_rect pending (Rect.src m) ≡ false
      → any (involves m) copies ≡ false
      → Knows bounds client screen pending copies
      → Knows bounds client (apply_move m screen) (Bands.remove pending m.dst) (copies ++ m ∷ [])
  carried pending copies m h clear free k =
      let removed = (add-remove pending m.dst k.normal).1 in
      record {
        agrees = λ x y inside p.
            replay-append bounds copies (m ∷ []) client x y
            ∙ elim (Bool-cases (Rect.contains_point m.dst x y)) [
              | inl on ↦
                  let at = contains_point-src bounds m x y h on in
                  rw on (
                    k.agrees _ _ ((contains_lem bounds (Rect.src m)).0 h.inside _ _ at)
                      (intersects_rect_lem pending (Rect.src m) _ _ clear at))
              | inr off ↦ rw off (k.agrees x y inside (ground (arith, removed.points x y)))
            ];
        normal = removed.normal;
        apart = Independent-append copies m k.apart free;
        moves = All-append _ copies (m ∷ []) k.moves (h, tt);
      }

  -- The destination becomes damage.
  damaged :
      (pending : Region) (copies : List Move) (m : Move)
      → Knows bounds client screen pending copies
      → Knows bounds client (apply_move m screen) (Bands.add pending m.dst) copies
  damaged pending copies m k =
      let added = (add-remove pending m.dst k.normal).0 in
      record {
        agrees = λ x y inside p.
            let off : Rect.contains_point m.dst x y ≡ false = ground (arith, added.points x y) in
            let clear : Bands.contains_point pending x y ≡ false =
              ground (arith, added.points x y) in
            rw off (k.agrees x y inside clear);
        normal = added.normal;
        apart = k.apart;
        moves = k.moves;
      }

  -- Whatever more is pending, off it nothing changes.
  pub more_pending :
      (pending wider : Region) (copies : List Move) (screen' : Picture Pixel)
      → IsNormal wider.rects
      → ((x y : I32)
          → Bands.contains_point wider x y ≡ false
          → (Bands.contains_point pending x y ≡ false) × (screen' x y ≡ screen x y))
      → Knows bounds client screen pending copies
      → Knows bounds client screen' wider copies
  more_pending pending wider copies screen' n h k = record {
    agrees = λ x y inside p. k.agrees x y inside (h x y p).0 ∙ sym (h x y p).1;
    normal = n;
    apart = k.apart;
    moves = k.moves;
  }

module _ {State Pixel : Type 0} (bounds : Rect) (client : Picture Pixel) where
  absorb_move-Knows :
      (copy_rect : Bool) (s : Session State) (m : Move) (screen : Picture Pixel)
      → IsMove bounds m
      → Knows bounds client screen s.pending s.copies
      → Knows bounds client
          (apply_move m screen)
          (absorb_move copy_rect s m).pending
          (absorb_move copy_rect s m).copies
  unfolding absorb_move is_clean
  absorb_move-Knows copy_rect s m screen h k = elim (Bool-cases (is_clean copy_rect s m)) [
    | inl clean ↦
        rw clean
          (carried bounds client screen s.pending s.copies m h (ground arith) (ground arith) k)
    | inr dirty ↦ rw dirty (damaged bounds client screen s.pending s.copies m k)
  ]

  absorb_moves-Knows :
      (copy_rect : Bool) (ms : List Move) (s : Session State) (screen : Picture Pixel)
      → All (IsMove bounds) ms
      → Knows bounds client screen s.pending s.copies
      → Knows bounds client
          (replay ms screen)
          (absorb_moves copy_rect s ms).pending
          (absorb_moves copy_rect s ms).copies
  unfolding absorb_moves
  absorb_moves-Knows copy_rect [] s screen h k = k
  absorb_moves-Knows copy_rect (m ∷ ms) s screen h k =
      absorb_moves-Knows copy_rect ms (absorb_move copy_rect s m) (apply_move m screen) h.1
        (absorb_move-Knows copy_rect s m screen h.0 k)

-- The screen after a frame: off the damage, what the moves make of the screen before.
abbrev pub Shows : {Pixel : Type 0} → FrameEvent → Picture Pixel → Picture Pixel → Type 0
Shows ev screen screen' =
    (x y : I32)
    → Bands.contains_point ev.damage x y ≡ false
    → screen' x y ≡ replay ev.moves screen x y

module _ {State Pixel : Type 0} (bounds : Rect) (client screen screen' : Picture Pixel)
    (ev : FrameEvent) (n : IsNormal ev.damage.rects) (moves : All (IsMove bounds) ev.moves)
    (shows : Shows ev screen screen') where
  -- The moves of a frame, and then its damage.
  absorbed-Knows :
      (copy_rect : Bool) (s : Session State)
      → Knows bounds client screen s.pending s.copies
      → Knows bounds client screen'
          (Bands.union (absorb_moves copy_rect s ev.moves).pending ev.damage)
          (absorb_moves copy_rect s ev.moves).copies
  absorbed-Knows copy_rect s k =
      let moved : Session State = absorb_moves copy_rect s ev.moves in
      let r = absorb_moves-Knows bounds client copy_rect ev.moves s screen moves k in
      let u = union-Gives moved.pending ev.damage r.normal n in
      more_pending bounds client (replay ev.moves screen) moved.pending
        (Bands.union moved.pending ev.damage) moved.copies screen' u.normal
        (λ x y p. (ground (arith, u.points x y), shows x y (ground (arith, u.points x y)))) r

-- All of the picture is pending.
pub all_pending :
    {Pixel : Type 0} (bounds : Rect) (client screen : Picture Pixel)
    → Knows bounds client screen (Bands.from_rect bounds) []
all_pending bounds client screen = record {
  agrees = λ x y inside p. let e = (from_rect-Gives bounds).points x y in ground arith;
  normal = (from_rect-Gives bounds).normal;
  apart = tt;
  moves = tt;
}

-- A frame that does not resize the picture, with moves inside it, keeps what a session believes of
-- its client true of the new screen: off the pending region the client's picture, with the copies
-- carried out, is the screen.
pub absorb-Knows :
    {State Pixel : Type 0} (shared : Shared) (bounds : Rect) (s : Session State) (ev : FrameEvent)
    (client screen screen' : Picture Pixel)
    → ev.resized ≡ false
    → IsNormal ev.damage.rects
    → All (IsMove bounds) ev.moves
    → Shows ev screen screen'
    → Knows bounds client screen s.pending s.copies
    → Knows bounds client screen' (absorb shared s ev).pending (absorb shared s ev).copies
unfolding absorb absorb_resize
absorb-Knows shared bounds s ev client screen screen' same n moves shows k = rw same (
    absorbed-Knows bounds client screen screen' ev n moves shows (supports s Encoding.copy_rect) s
      k)

-- A frame that resizes it leaves all of the new picture pending, whatever the client has.
pub absorb-resized :
    {State Pixel : Type 0} (shared : Shared) (s : Session State) (ev : FrameEvent)
    (client screen screen' : Picture Pixel)
    → ev.resized ≡ true
    → IsNormal ev.damage.rects
    → All (IsMove (Framebuffer.bounds shared.fb)) ev.moves
    → Shows ev screen screen'
    → Knows
        (Framebuffer.bounds shared.fb)
        client
        screen'
        (absorb shared s ev).pending
        (absorb shared s ev).copies
unfolding absorb absorb_resize
absorb-resized {State} {Pixel} shared s ev client screen screen' resized n moves shows =
    let fresh : Session State = record s {
      pending = Bands.from_rect (Framebuffer.bounds shared.fb);
      copies = [];
      layout_pending = true;
    } in
    rw resized (
      absorbed-Knows (Framebuffer.bounds shared.fb) client screen screen' ev n moves shows
        (supports fresh Encoding.copy_rect) fresh (all_pending _ client screen))
