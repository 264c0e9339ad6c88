-- ===== src/Session/Frames.antt =====
-- What a session owes its client: `due_area`, `absorb` and `has_something_for` of
-- crates/alloyvnc/src/session.rs.
use alloyvnc.Base.{
  Bool, true, not, ◌&&◌, ◌||◌, Option, none, some, List, [], ◌∷◌, ◌++◌, any, if◌then◌else◌,
}
use alloyvnc.Region.Rect
use alloyvnc.Region.Rect.{Rect, Move}
use alloyvnc.Region.Bands
use alloyvnc.Region.Bands.{Region}
use alloyvnc.Flow.{Instant}
use alloyvnc.Proto.Encoding
use alloyvnc.Encode.Framebuffer
use alloyvnc.Session.{Session, Shared, FrameEvent, supports, cursor_encoding, is_some}

-- The condition on one earlier copy in `clean`.
abbrev pub involves : Move → Move → Bool
involves m c =
    Rect.intersects c.dst (Rect.src m)
    || (Rect.intersects c.dst m.dst || Rect.intersects (Rect.src c) m.dst)

module _ {State : Type 0} where
  unfoldable pub due_area : Session State → Option Rect
  due_area s = elim s.requested [
    | some r ↦ elim s.continuous [ some c ↦ some (Rect.union_bounds r c) | none ↦ some r ]
    | none ↦ s.continuous
  ]

  unfoldable pub is_clean : Bool → Session State → Move → Bool
  is_clean copy_rect s m =
      copy_rect
      && (not (Bands.intersects_rect s.pending (Rect.src m)) && not (any (involves m) s.copies))

  unfoldable pub absorb_move : Bool → Session State → Move → Session State
  unfolding is_clean
  absorb_move copy_rect s m =
      if is_clean copy_rect s m
      then record s { pending = Bands.remove s.pending m.dst; copies = s.copies ++ m ∷ [] }
      else record s { pending = Bands.add s.pending m.dst }

  -- `for m in ev.moves.iter()`
  unfoldable pub absorb_moves : Bool → Session State → List Move → Session State
  unfolding absorb_move
  absorb_moves copy_rect s [] = s
  absorb_moves copy_rect s (m ∷ ms) = absorb_moves copy_rect (absorb_move copy_rect s m) ms

  unfoldable pub absorb_resize : Shared → Session State → Bool → Session State
  absorb_resize shared s resized =
      if resized
      then record s {
        pending = Bands.from_rect (Framebuffer.bounds shared.fb);
        copies = [];
        layout_pending = true;
      }
      else s

  unfoldable pub absorb : Shared → Session State → FrameEvent → Session State
  unfolding absorb_resize absorb_moves
  absorb shared s ev =
      let fresh : Session State = absorb_resize shared s ev.resized in
      let moved : Session State = absorb_moves (supports fresh Encoding.copy_rect) fresh ev.moves in
      record moved {
        pending = Bands.union moved.pending ev.damage;
        cursor_pending = elim ev.cursor [ some shape ↦ some shape | none ↦ moved.cursor_pending ];
        newest_frame = some ev.at;
      }

  -- The frames fell out of the channel (`RecvError::Lagged`).
  unfoldable pub lagged : Shared → Session State → Instant → Session State
  lagged shared s now = record s {
    pending = Bands.from_rect (Framebuffer.bounds shared.fb);
    copies = [];
    newest_frame = some now;
  }

  unfoldable pub has_something_for : Session State → Rect → Bool
  unfolding cursor_encoding
  has_something_for s area =
      s.layout_pending
      || ((is_some s.cursor_pending && is_some (cursor_encoding s))
          || (any (λ c. Rect.intersects c.dst area) s.copies
              || Bands.intersects_rect s.pending area))
