-- ===== src/Session/Picture/Messages.antt =====
-- What the messages of a client do to what the session owes it (`handle` of
-- crates/alloyvnc/src/session.rs).
use alloyvnc.Base.{
  ◌≡◌, refl, inl, inr, ◌⊎◌, Bool-cases, Bool, true, false, Option, none, some, List, if◌then◌else◌,
  ◌==◌,
}
use alloyvnc.Region.Rect.{Rect}
use alloyvnc.Region.Bands
use alloyvnc.Flow.{Instant}
use alloyvnc.Flow
use alloyvnc.Base.{ℕ, ◌∙◌}
use alloyvnc.Base.Words.{I32}
use alloyvnc.Proto.Wire.{Bytes}
use alloyvnc.Proto.Text.{Text}
use alloyvnc.Proto.Server.{write_server_clipboard}
use alloyvnc.Base.{arith}
use Prim.Native.Nat.{bit_and}
use alloyvnc.Proto.Error.{Result, ok, err}
use alloyvnc.Proto.PixelFormat
use alloyvnc.Proto.PixelFormat.{PixelFormat}
use alloyvnc.Proto.Clipboard.{
  ClipboardMessage, caps, request, peek, notify, provide, unknown, Deflate, format_text,
  clipboard_provide_text,
}
use alloyvnc.Proto.Message.{
  ClientMessage, set_pixel_format, set_encodings, framebuffer_update_request, key_event,
  pointer_event, client_cut_text, extended_clipboard, unreadable_clipboard,
  enable_continuous_updates, client_fence, set_desktop_size, qemu_key_event,
}
use alloyvnc.Session.{Serves, Session, Shared, Encoders, Served}
use alloyvnc.Session.Clipboard.{onto_the_desk, has_flag}
use alloyvnc.Session.Clipboard as Clips
use alloyvnc.Session.Send.{release_over, release_fence}
use alloyvnc.Session.Handle.{
  change_format, format_checked, offer_continuous, offer_clipboard, offer_measure, offer_layout,
  choose, fetch_cursor, change_encodings, request_update, change_continuous, echoed, fence_asked,
  refuse_resize, handle, wire_rect, sequence_of, fence_request,
}

-- What is owed is the same, and the reader is paused if it was.
pub record Same {State : Type 0} (s s' : Session State) : Type 0 where
  pub pending : s'.pending ≡ s.pending
  pub copies : s'.copies ≡ s.copies
  pub paused : s'.reader_paused ≡ s.reader_paused

-- The same is owed, or a rectangle more.
pub record Owes {State : Type 0} (s s' : Session State) : Type 0 where
  pub pending : (s'.pending ≡ s.pending) ⊎ ((r : Rect) × (s'.pending ≡ Bands.add s.pending r))
  pub copies : s'.copies ≡ s.copies

module _ {State : Type 0} where
  then-Same : {s t u : Session State} → Same s t → Same t u → Same s u
  then-Same p q = record {
    pending = q.pending ∙ p.pending;
    copies = q.copies ∙ p.copies;
    paused = q.paused ∙ p.paused;
  }

  Owes-Same : {s t : Session State} → Same s t → Owes s t
  Owes-Same p = record { pending = inl p.pending; copies = p.copies }

  alike :
      {s s' : Session State}
      → s'.pending ≡ s.pending
      → s'.copies ≡ s.copies
      → s'.reader_paused ≡ s.reader_paused
      → Same s s'
  alike p q r = record { pending = p; copies = q; paused = r }

  offers_owed :
      (s : Session State) (list : List I32)
      → Same s (offer_continuous s list)
        × (Same s (offer_clipboard s list)
            × (Same s (offer_measure s list) × Same s (offer_layout s list)))
  unfolding offer_continuous offer_clipboard offer_measure offer_layout
  offers_owed s list = (
    alike (ground arith) (ground arith) (ground arith),
    (
      alike (ground arith) (ground arith) (ground arith),
      (
        alike (ground arith) (ground arith) (ground arith),
        alike (ground arith) (ground arith) (ground arith),
      ),
    ),
  )

  choices_owed :
      (encoders : Encoders State) (shared : Shared) (s : Session State)
      → Same s (choose encoders s) × Same s (fetch_cursor shared s)
  unfolding choose fetch_cursor
  choices_owed encoders shared s = (
    alike (ground arith) (ground arith) (ground arith),
    alike (ground arith) (ground arith) (ground arith),
  )

  pub change_encodings_owed :
      (encoders : Encoders State) (shared : Shared) (s : Session State) (list : List I32)
      → Same s (change_encodings encoders shared s list)
  unfolding change_encodings
  change_encodings_owed encoders shared s list =
      let a = offer_continuous s list in
      let b = offer_clipboard a list in
      let c = offer_measure b list in
      let d = offer_layout c list in
      let e : Session State = record d { encodings = list } in
      let offered : Same s d = then-Same (offers_owed s list).0 (
        then-Same (offers_owed a list).1.0
          (then-Same (offers_owed b list).1.1.0 (offers_owed c list).1.1.1)) in
      let listed : Same s e = alike offered.pending offered.copies offered.paused in
      then-Same (then-Same listed (choices_owed encoders shared e).0)
        (choices_owed encoders shared (choose encoders e)).1

  pub extended_clipboard_owed :
      (deflate : Deflate) (s : Session State) (m : ClipboardMessage)
      → Same s (Clips.extended_clipboard deflate s m)
  unfolding Clips.extended_clipboard onto_the_desk
  extended_clipboard_owed deflate s (caps formats actions sizes) = alike refl refl refl
  extended_clipboard_owed deflate s (request formats) = held s.clip_held
    where
      held :
          (text : Option Text)
          → Same s (elim text [
            | some t ↦
                if has_flag formats format_text
                then Clips.queue s (write_server_clipboard (clipboard_provide_text deflate t))
                else s
            | none ↦ s
          ])
      held none = alike refl refl refl
      held (some t) = alike (ground arith) (ground arith) (ground arith)
  extended_clipboard_owed deflate s (peek formats) = alike refl refl refl
  extended_clipboard_owed deflate s (notify formats) =
      alike (ground arith) (ground arith) (ground arith)
  extended_clipboard_owed deflate s (provide (some text)) = alike refl refl refl
  extended_clipboard_owed deflate s (provide none) = alike refl refl refl
  extended_clipboard_owed deflate s (unknown flags) = alike refl refl refl

  request_update-Owes :
      (shared : Shared) (s : Session State) (incremental : Bool) (asked : Rect)
      → Owes s (request_update shared s incremental asked)
  unfolding request_update
  request_update-Owes shared s true asked = record { pending = inl refl; copies = refl }
  request_update-Owes shared s false asked = record { pending = inr (_, refl); copies = refl }

  fence_owed :
      (s : Session State) (now : Instant) (flags : ℕ) (payload : Bytes)
      → Owes s (
          if bit_and flags fence_request == 0
          then echoed s now payload
          else fence_asked s flags payload)
  unfolding echoed fence_asked
  fence_owed s now flags payload = elim (Bool-cases (bit_and flags fence_request == 0)) [
    | inl e ↦ rw e (Owes-Same (pong (sequence_of payload)))
    | inr e ↦ rw e (record { pending = inl (ground arith); copies = ground arith })
  ]
    where
      pong :
          (seq : Option ℕ)
          → Same s (elim seq [ none ↦ s | some n ↦ record s { flow = (Flow.pong s.flow n now).1 } ])
      pong none = alike refl refl refl
      pong (some n) = alike refl refl refl

  -- A message that does not end the session.
  abbrev pub OwesAfter : Session State → Served (Session State) → Type 0
  OwesAfter s = Serves (Owes s)

  format_checked_owed :
      (encoders : Encoders State) (s : Session State) (pf : PixelFormat) (valid : Result (Unit {0}))
      → OwesAfter s (format_checked encoders s pf valid)
  unfolding format_checked
  format_checked_owed encoders s pf (err e) = tt
  format_checked_owed encoders s pf (ok _) =
      Owes-Same (alike (ground arith) (ground arith) (ground arith))

  -- A message of the client owes it what was owed before, and a rectangle more at most.
  pub handle-Owes :
      (encoders : Encoders State) (deflate : Deflate) (shared : Shared) (now : Instant)
      (s : Session State) (m : ClientMessage)
      → OwesAfter s (handle encoders deflate shared now s m)
  unfolding handle change_format onto_the_desk change_continuous refuse_resize
  handle-Owes encoders deflate shared now s (set_pixel_format pf) =
      format_checked_owed encoders s pf (PixelFormat.validate pf)
  handle-Owes encoders deflate shared now s (set_encodings list) =
      Owes-Same (change_encodings_owed encoders shared s list)
  handle-Owes encoders deflate shared now s (framebuffer_update_request incremental x y w h) =
      request_update-Owes shared s incremental (wire_rect x y w h)
  handle-Owes encoders deflate shared now s (key_event down keysym) =
      Owes-Same (alike refl refl refl)
  handle-Owes encoders deflate shared now s (qemu_key_event down keysym keycode) =
      Owes-Same (alike refl refl refl)
  handle-Owes encoders deflate shared now s (pointer_event buttons x y) =
      Owes-Same (alike refl refl refl)
  handle-Owes encoders deflate shared now s (client_cut_text text) =
      Owes-Same (alike refl refl refl)
  handle-Owes encoders deflate shared now s (extended_clipboard message) =
      Owes-Same (extended_clipboard_owed deflate s message)
  handle-Owes encoders deflate shared now s (unreadable_clipboard flags why) =
      Owes-Same (alike refl refl refl)
  handle-Owes encoders deflate shared now s (enable_continuous_updates enable x y w h) =
      Owes-Same (alike (ground arith) (ground arith) (ground arith))
  handle-Owes encoders deflate shared now s (client_fence flags payload) =
      fence_owed s now flags payload
  handle-Owes encoders deflate shared now s (set_desktop_size width height screens) =
      Owes-Same (alike refl refl refl)

  release_over_owed : (s : Session State) (held : Option Bytes) → Same s (release_over s held)
  unfolding release_over
  release_over_owed s none = alike refl refl refl
  release_over_owed s (some fence) = alike (ground arith) (ground arith) (ground arith)

  pub clip_moved_owed :
      (deflate : Deflate) (s : Session State) (text : Text)
      → Same s (Clips.clip_moved deflate s text)
  unfolding Clips.clip_moved
  clip_moved_owed deflate s text = alike (ground arith) (ground arith) (ground arith)

  -- So do the fence that is released and the clipboard of the desk.
  pub release_fence-Owes : (s : Session State) → Owes s (release_fence s)
  unfolding release_fence
  release_fence-Owes s = Owes-Same (release_over_owed s s.held_fence)

  pub clip_moved-Owes :
      (deflate : Deflate) (s : Session State) (text : Text)
      → Owes s (Clips.clip_moved deflate s text)
  clip_moved-Owes deflate s text = Owes-Same (clip_moved_owed deflate s text)
