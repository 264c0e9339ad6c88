-- ===== src/Session/Reader/Keeps.antt =====
-- What leaves a paused reader as it is (crates/alloyvnc/src/session.rs): frames, the fence that is
-- released, the clipboard.
use alloyvnc.Base.{
  ◌≡◌, refl, ◌∙◌, inl, inr, Bool-cases, Bool, true, false, Option, none, some, List, [], ◌∷◌, arith,
  ltb, length,
}
use alloyvnc.Region.Rect.{Move}
use alloyvnc.Proto.Wire.{Bytes}
use alloyvnc.Proto.Text.{Text, as_bytes}
use alloyvnc.Proto.Encoding
use alloyvnc.Proto.Clipboard.{Deflate, max_cut_text}
use alloyvnc.Session.{supports, Session, Shared, FrameEvent, is_some}
use alloyvnc.Session.Frames.{is_clean, due_area, absorb_move, absorb_moves, absorb_resize, absorb}
use alloyvnc.Session.Clipboard.{clip_message, is_echo, clip_moved}
use alloyvnc.Session.Send.{release_over}
use alloyvnc.Session.Reader.{is_awake, waits-append, Kept}

module _ {State : Type 0} where
  pub same_reader : (s : Session State) → Kept s s
  same_reader s = record { paused = refl; held = refl; outbox = refl }

  then-Kept : (s t u : Session State) → Kept s t → Kept t u → Kept s u
  then-Kept s t u p q = record {
    paused = q.paused ∙ p.paused;
    held = q.held ∙ p.held;
    outbox = q.outbox ∙ p.outbox;
  }

  absorb_move-Kept :
      (copy_rect : Bool) (s : Session State) (m : Move) → Kept s (absorb_move copy_rect s m)
  unfolding absorb_move
  absorb_move-Kept copy_rect s m = elim (Bool-cases (is_clean copy_rect s m)) [
    | inl e ↦ rw e (record { paused = refl; held = refl; outbox = refl })
    | inr e ↦ rw e (record { paused = refl; held = refl; outbox = refl })
  ]

  absorb_moves-Kept :
      (copy_rect : Bool) (s : Session State) (ms : List Move) → Kept s (absorb_moves copy_rect s ms)
  unfolding absorb_moves
  absorb_moves-Kept copy_rect s [] = same_reader s
  absorb_moves-Kept copy_rect s (m ∷ ms) =
      then-Kept s (absorb_move copy_rect s m) _ (absorb_move-Kept copy_rect s m)
        (absorb_moves-Kept copy_rect (absorb_move copy_rect s m) ms)

  absorb_resize-Kept :
      (shared : Shared) (s : Session State) (b : Bool) → Kept s (absorb_resize shared s b)
  unfolding absorb_resize
  absorb_resize-Kept shared s true = record { paused = refl; held = refl; outbox = refl }
  absorb_resize-Kept shared s false = same_reader s

  pub absorb-Kept :
      (shared : Shared) (s : Session State) (ev : FrameEvent) → Kept s (absorb shared s ev)
  unfolding absorb
  absorb-Kept shared s ev =
      let fresh : Session State = absorb_resize shared s ev.resized in
      let moved : Kept fresh (absorb_moves (supports fresh Encoding.copy_rect) fresh ev.moves) =
        absorb_moves-Kept (supports fresh Encoding.copy_rect) fresh ev.moves in
      let a = absorb_resize-Kept shared s ev.resized in
      record {
        paused = moved.paused ∙ a.paused;
        held = moved.held ∙ a.held;
        outbox = moved.outbox ∙ a.outbox;
      }

  pub release_over-is_awake :
      (s : Session State) (held : Option Bytes)
      → s.held_fence ≡ held
      → is_awake s ≡ true
      → is_awake (release_over s held) ≡ true
  unfolding release_over
  release_over-is_awake s none e h = h
  release_over-is_awake s (some fence) e h = elim (Bool-cases (is_some (due_area s))) [
    | inl d ↦ rw d h
    | inr d ↦ let w = waits-append s.outbox fence in rw d (ground (arith, w))
  ]

  pub clip_moved-is_awake :
      (deflate : Deflate) (s : Session State) (text : Text)
      → is_awake s ≡ true
      → is_awake (clip_moved deflate s text) ≡ true
  unfolding clip_moved
  clip_moved-is_awake deflate s text h = elim (Bool-cases (is_echo s.clip_echo text)) [
    | inl e ↦ rw e h
    | inr e ↦ rw e (elim (Bool-cases (ltb max_cut_text (length (as_bytes text)))) [
      | inl f ↦ rw f h
      | inr f ↦
          let w = waits-append s.outbox (clip_message deflate s.clip_ext s.clip_held text).0 in
          rw f (ground (arith, w))
    ])
  ]
