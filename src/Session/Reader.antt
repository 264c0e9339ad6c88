-- ===== src/Session/Reader.antt =====
-- A reader that a fence paused is not forgotten (`reader_paused`, `held_fence` and `outbox` of
-- crates/alloyvnc/src/session.rs).
pub mod Keeps
pub mod Sends
pub mod Runs
use mathlib.Core.Path.{subst}
use alloyvnc.Base.{
  ℕ, ◌+◌, ◌≡◌, refl, ◌∙◌, sym, ap, inl, inr, ◌⊎◌, Bool-cases, Bool, true, false, not, ◌&&◌, ◌||◌,
  Option, none, some, List, [], ◌∷◌, ◌++◌, arith, ◌==◌, if◌then◌else◌,
}
use alloyvnc.Base.Words.{I32}
use Prim.Native.Nat.{bit_and}
use alloyvnc.Region.Rect.{Rect, Move}
use alloyvnc.Region.Bands.{Region}
use alloyvnc.Flow
use alloyvnc.Flow.{Instant, Limits}
use alloyvnc.Proto.Error.{Result, ok, err}
use alloyvnc.Proto.Wire.{Bytes}
use alloyvnc.Proto.PixelFormat
use alloyvnc.Proto.PixelFormat.{PixelFormat}
use alloyvnc.Proto.Clipboard.{Deflate}
use alloyvnc.Proto.Message.{
  ClientMessage, set_pixel_format, set_encodings, framebuffer_update_request, key_event,
  pointer_event, client_cut_text, extended_clipboard, unreadable_clipboard,
  enable_continuous_updates, client_fence, set_desktop_size, qemu_key_event,
}
use alloyvnc.Encode.Framebuffer
use alloyvnc.Encode.Framebuffer.{Framebuffer}
use alloyvnc.Encode.Convert.{eq_format}
use alloyvnc.Session
use alloyvnc.Session.{
  Session, Shared, Encoders, FrameEvent, Served, stopped, served, Serves, is_some, resize_encoding,
}
use alloyvnc.Session.Frames.{due_area, absorb_move, absorb_moves, absorb_resize, absorb, lagged}
use alloyvnc.Session.Clipboard.{onto_the_desk, clip_moved}
use alloyvnc.Session.Clipboard as Clips
use alloyvnc.Session.Handle.{
  change_format, change_encodings, format_checked, change_continuous, request_update, echoed,
  fence_asked, fence_request, fence_response, fence_sync_next, sequence_of, refuse_resize, handle,
}
use alloyvnc.Session.Update.{
  encode_all, resize_by, resize_update, put_update, write_update, counted, rects_of_update,
  cursor_bytes, cursor_due,
}
use alloyvnc.Session.Send.{
  no_moves, split_copies, same_size, size_of, fill_update, build_update, post_update, posted,
  update_over, send_over, send_update, send_next, release_over, release_fence,
}
use alloyvnc.Session.Picture.{Picture}
use alloyvnc.Session.Picture.Messages.{change_encodings_owed, extended_clipboard_owed}
use alloyvnc.Session.Picture.Steps.{
  Scene, Step, expired, heard, released, told, framed, resized, behind, handed, sent, told_size,
  Steps, here, after, first,
}

abbrev pub waits : List Bytes → Bool
waits [] = false
waits (buf ∷ bufs) = true

-- The reader runs, or a message that lets it go on is held or waits to be sent.
abbrev pub is_awake : {State : Type 0} → Session State → Bool
is_awake s = not s.reader_paused || (is_some s.held_fence || waits s.outbox)

pub waits-append : (bufs : List Bytes) (buf : Bytes) → waits (bufs ++ buf ∷ []) ≡ true
waits-append [] buf = refl
waits-append (b ∷ bufs) buf = refl

-- The reader, the fence and the outbox are as they were.
pub record Kept {State : Type 0} (s s' : Session State) : Type 0 where
  pub paused : s'.reader_paused ≡ s.reader_paused
  pub held : s'.held_fence ≡ s.held_fence
  pub outbox : s'.outbox ≡ s.outbox

module _ {State : Type 0} where
  pub Kept-is_awake : (s s' : Session State) → Kept s s' → is_awake s ≡ true → is_awake s' ≡ true
  Kept-is_awake s s' k h = rw (k.paused, k.held, k.outbox) h

  running-is_awake : (s : Session State) → s.reader_paused ≡ false → is_awake s ≡ true
  running-is_awake s e = rw e refl

  format_checked-is_awake :
      (encoders : Encoders State) (s : Session State) (pf : PixelFormat) (valid : Result (Unit {0}))
      → s.reader_paused ≡ false
      → Serves (λ u. is_awake u ≡ true) (format_checked encoders s pf valid)
  unfolding format_checked
  format_checked-is_awake encoders s pf (err e) r = tt
  format_checked-is_awake encoders s pf (ok _) r = elim (Bool-cases (eq_format pf s.pf)) [
    | inl e ↦ rw (e, r) refl
    | inr e ↦ rw (e, r) refl
  ]

  fence-is_awake :
      (s : Session State) (now : Instant) (flags : ℕ) (payload : Bytes)
      → s.reader_paused ≡ false
      → is_awake (
          if bit_and flags fence_request == 0
          then echoed s now payload
          else fence_asked s flags payload)
        ≡ true
  unfolding echoed fence_asked
  fence-is_awake s now flags payload r = elim (Bool-cases (bit_and flags fence_request == 0)) [
    | inl e ↦ rw e (pong (sequence_of payload))
    | inr e ↦ rw e (elim (Bool-cases (bit_and flags fence_sync_next == 0)) [
      | inl f ↦
          let w = waits-append s.outbox (fence_response flags payload) in rw f (ground (arith, w))
      | inr f ↦ rw f (ground arith)
    ])
  ]
    where
      pong :
          (seq : Option ℕ)
          → is_awake
              (elim seq [ none ↦ s | some n ↦ record s { flow = (Flow.pong s.flow n now).1 } ])
            ≡ true
      pong none = rw r refl
      pong (some n) = rw r refl

  pub handle-is_awake :
      (encoders : Encoders State) (deflate : Deflate) (shared : Shared) (now : Instant)
      (s : Session State) (m : ClientMessage)
      → s.reader_paused ≡ false
      → Serves (λ u. is_awake u ≡ true) (handle encoders deflate shared now s m)
  unfolding handle change_format onto_the_desk change_continuous refuse_resize request_update
  handle-is_awake encoders deflate shared now s (set_pixel_format pf) r =
      format_checked-is_awake encoders s pf _ r
  handle-is_awake encoders deflate shared now s (set_encodings list) r =
      running-is_awake (change_encodings encoders shared s list)
        ((change_encodings_owed encoders shared s list).paused ∙ r)
  handle-is_awake encoders deflate shared now s (framebuffer_update_request incremental x y w h) r =
      rw r refl
  handle-is_awake encoders deflate shared now s (key_event down keysym) r = rw r refl
  handle-is_awake encoders deflate shared now s (qemu_key_event down keysym keycode) r = rw r refl
  handle-is_awake encoders deflate shared now s (pointer_event buttons x y) r = rw r refl
  handle-is_awake encoders deflate shared now s (client_cut_text text) r = rw r refl
  handle-is_awake encoders deflate shared now s (extended_clipboard message) r =
      running-is_awake (Clips.extended_clipboard deflate s message)
        ((extended_clipboard_owed deflate s message).paused ∙ r)
  handle-is_awake encoders deflate shared now s (unreadable_clipboard flags why) r = rw r refl
  handle-is_awake encoders deflate shared now s (enable_continuous_updates enable x y w h) r =
      elim (Bool-cases enable) [ inl e ↦ rw (e, r) refl | inr e ↦ rw (e, r) refl ]
  handle-is_awake encoders deflate shared now s (client_fence flags payload) r =
      fence-is_awake s now flags payload r
  handle-is_awake encoders deflate shared now s (set_desktop_size width height screens) r =
      rw r refl
