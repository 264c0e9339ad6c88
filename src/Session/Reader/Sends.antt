-- ===== src/Session/Reader/Sends.antt =====
-- What `send_next` of crates/alloyvnc/src/session.rs does to a paused reader.
use mathlib.Core.Path.{subst}
use alloyvnc.Base.{
  ◌≡◌, refl, ◌∙◌, ap, inl, inr, Bool-cases, Bool, true, false, not, ◌&&◌, Option, none, some, List,
  [], ◌∷◌, arith, ltb, ◌-◌,
}
use alloyvnc.Base.Words.{I32, u16_mod}
use alloyvnc.Region.Rect.{Rect, Move}
use alloyvnc.Region.Bands
use alloyvnc.Region.Bands.{Region}
use alloyvnc.Flow.{Instant}
use alloyvnc.Proto.Wire.{Bytes}
use alloyvnc.Encode.Framebuffer
use alloyvnc.Encode.Framebuffer.{Framebuffer}
use alloyvnc.Session.{
  Session, Shared, Encoders, Served, stopped, served, Serves, is_some, resize_encoding,
}
use alloyvnc.Session.Frames.{due_area}
use alloyvnc.Session.Update.{
  keep_for_later, sendable, update_count, layout_due, encode_all, resize_by, resize_update,
  put_update, write_update, counted, rects_of_update, cursor_bytes, cursor_due,
}
use alloyvnc.Session.Send.{
  no_moves, split_copies, same_size, size_of, fill_update, build_update, post_update, posted,
  update_over, send_over, send_update, send_next,
}
use alloyvnc.Session.Reader.{waits, is_awake, Kept, Kept-is_awake}
use alloyvnc.Session.Reader.Keeps.{same_reader}

module _ {State : Type 0} (encoders : Encoders State) (shared : Shared) where
  encode_all-Kept :
      (rs : List Rect) (s : Session State) → Kept s (encode_all encoders shared s rs).0
  unfolding encode_all
  encode_all-Kept [] s = same_reader s
  encode_all-Kept (r ∷ rs) s =
      let k = encode_all-Kept rs _ in record { paused = k.paused; held = k.held; outbox = k.outbox }

  abbrev KeptBy : Session State → Served (Bool × Session State × Bytes) → Type 0
  KeptBy s (stopped why) = Unit
  KeptBy s (served (ready, s', out)) = Kept s s'

  put_update-Kept :
      (s : Session State) (moves : List Move) (damage : Region) (pointer : Bytes)
      → Kept s (put_update encoders shared s moves damage pointer).1
  unfolding put_update counted
  put_update-Kept s moves damage pointer =
      let k =
        encode_all-Kept (rects_of_update encoders shared s damage)
          (counted encoders shared s moves damage) in
      record { paused = k.paused; held = k.held; outbox = k.outbox }

  written-Kept :
      (s : Session State) (moves : List Move) (damage : Region) (over : Bool)
      (pointer : Option Bytes)
      → ltb
          (u16_mod - 1)
          (update_count encoders shared s moves (rects_of_update encoders shared s damage))
        ≡ over
      → cursor_bytes s (cursor_due s) ≡ pointer
      → KeptBy s (write_update encoders shared s moves damage)
  unfolding write_update
  written-Kept s moves damage true pointer a b = rw a tt
  written-Kept s moves damage false none a b = rw (a, b) tt
  written-Kept s moves damage false (some pointer) a b =
      rw (a, b) (put_update-Kept s moves damage pointer)

  split-KeptBy :
      (s : Session State) (area : Rect) (done : Served (Bool × Session State × Bytes))
      → KeptBy (split_copies s area) done
      → KeptBy s done
  split-KeptBy s area (stopped why) k = tt
  split-KeptBy s area (served (ready, s', out)) k = record {
    paused = k.paused;
    held = k.held;
    outbox = k.outbox;
  }

  fill_update-Kept :
      (s : Session State) (area : Rect) → KeptBy s (fill_update encoders shared s area)
  unfolding fill_update
  fill_update-Kept s area =
      let damage : Region = Bands.intersect_rect (keep_for_later area s.copies s.pending) area in
      elim (Bool-cases (
        no_moves (sendable area s.copies)
        && (Bands.is_empty damage
            && (not (is_some (cursor_due (split_copies s area)))
                && not (layout_due (split_copies s area)))))) [
                  | inl none_due ↦
                      rw none_due (record { paused = refl; held = refl; outbox = refl })
                  | inr due ↦ rw due (
                      split-KeptBy s area _ (
                        written-Kept (split_copies s area) (sendable area s.copies) damage _ _ refl
                          refl))
                ]

  resize_by-Kept :
      (s : Session State) (bounds : Rect) (enc : Option I32)
      → KeptBy s (resize_by encoders shared s bounds enc)
  unfolding resize_by
  resize_by-Kept s bounds none = tt
  resize_by-Kept s bounds (some enc) = record { paused = refl; held = refl; outbox = refl }

  build_update-Kept :
      (s : Session State) (area : Rect) → KeptBy s (build_update encoders shared s area)
  unfolding build_update resize_update
  build_update-Kept s area =
      let bounds : Rect = Framebuffer.bounds shared.fb in
      elim (Bool-cases (same_size (size_of bounds) s.client_size)) [
        | inl same ↦ rw same (fill_update-Kept s area)
        | inr other ↦ rw other (resize_by-Kept s bounds (resize_encoding s))
      ]

  post_update-is_awake :
      (s : Session State) (out : Bytes) (now : Instant)
      → s.outbox ≡ []
      → is_awake s ≡ true
      → is_awake (post_update s out now) ≡ true
  unfolding post_update
  post_update-is_awake s out now empty h =
      let w : waits s.outbox ≡ false = ap waits empty in ground (arith, w, h)

  posted-is_awake :
      (s : Session State) (now : Instant) (done : Served (Bool × Session State × Bytes))
      → KeptBy s done
      → s.outbox ≡ []
      → is_awake s ≡ true
      → Serves (λ u. is_awake u ≡ true) (posted now done)
  unfolding posted
  posted-is_awake s now (stopped why) k empty h = tt
  posted-is_awake s now (served (true, s', out)) k empty h =
      post_update-is_awake s' out now (k.outbox ∙ empty) (Kept-is_awake s s' k h)
  posted-is_awake s now (served (false, s', out)) k empty h = Kept-is_awake s s' k h

  update_over-is_awake :
      (s : Session State) (now : Instant) (due : Option Rect)
      → s.outbox ≡ []
      → is_awake s ≡ true
      → Serves (λ u. is_awake u ≡ true) (update_over encoders shared s now due)
  unfolding update_over
  update_over-is_awake s now none empty h = h
  update_over-is_awake s now (some area) empty h =
      posted-is_awake s now _ (build_update-Kept s area) empty h

  send_over-is_awake :
      (s : Session State) (now : Instant) (outbox : List Bytes)
      → s.outbox ≡ outbox
      → is_awake s ≡ true
      → Serves (λ u. is_awake u ≡ true) (send_over encoders shared s now outbox)
  unfolding send_over send_update
  send_over-is_awake s now [] e h = update_over-is_awake s now (due_area s) e h
  send_over-is_awake s now (buf ∷ bufs) e h = refl

  pub send_next-is_awake :
      (s s' : Session State) (now : Instant)
      → send_next encoders shared s now ≡ served s'
      → is_awake s ≡ true
      → is_awake s' ≡ true
  unfolding send_next
  send_next-is_awake s s' now e h =
      subst (Serves (λ u. is_awake u ≡ true)) e (send_over-is_awake s now s.outbox refl h)
