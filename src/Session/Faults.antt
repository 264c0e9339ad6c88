-- ===== src/Session/Faults.antt =====
-- Which messages end a session (`handle` of crates/alloyvnc/src/session.rs).
use mathlib.Core.Path.{subst}
use alloyvnc.Base.{◌≡◌, refl}
use alloyvnc.Flow.{Instant}
use alloyvnc.Proto.Error.{Error, Result, ok, err}
use alloyvnc.Proto.PixelFormat
use alloyvnc.Proto.PixelFormat.{PixelFormat}
use alloyvnc.Proto.Clipboard.{Deflate}
use alloyvnc.Proto.Message.{
  ClientMessage, set_pixel_format, set_encodings, framebuffer_update_request, key_event,
  pointer_event, client_cut_text, extended_clipboard, unreadable_clipboard,
  enable_continuous_updates, client_fence, set_desktop_size, qemu_key_event,
}
use alloyvnc.Session.{Session, Shared, Encoders, Served, served, stopped, Fault, wire}
use alloyvnc.Session.Handle.{format_checked, change_format, handle}

-- The message asks for a pixel format that is refused, and the session ends with that error.
abbrev pub IsRefused : ClientMessage → Fault → Type 0
IsRefused m why =
    (pf : PixelFormat) × ((e : Error) × ((m ≡ set_pixel_format pf)
        × ((PixelFormat.validate pf ≡ err e) × (why ≡ wire e))))

module _ {State : Type 0} (encoders : Encoders State) (s : Session State) where
  abbrev EndsWell : ClientMessage → Served (Session State) → Type 0
  EndsWell m (stopped why) = IsRefused m why
  EndsWell m (served s') = Unit

  format_checked_ends :
      (pf : PixelFormat) (valid : Result (Unit {0}))
      → PixelFormat.validate pf ≡ valid
      → EndsWell (set_pixel_format pf) (format_checked encoders s pf valid)
  unfolding format_checked
  format_checked_ends pf (err e) h = (pf, (e, (refl, (h, refl))))
  format_checked_ends pf (ok u) h = tt

  handle_ends :
      (deflate : Deflate) (shared : Shared) (now : Instant) (m : ClientMessage)
      → EndsWell m (handle encoders deflate shared now s m)
  unfolding handle change_format
  handle_ends deflate shared now (set_pixel_format pf) = format_checked_ends pf _ refl
  handle_ends deflate shared now (set_encodings list) = tt
  handle_ends deflate shared now (framebuffer_update_request incremental x y w h) = tt
  handle_ends deflate shared now (key_event down keysym) = tt
  handle_ends deflate shared now (qemu_key_event down keysym keycode) = tt
  handle_ends deflate shared now (pointer_event buttons x y) = tt
  handle_ends deflate shared now (client_cut_text text) = tt
  handle_ends deflate shared now (extended_clipboard message) = tt
  handle_ends deflate shared now (unreadable_clipboard flags why) = tt
  handle_ends deflate shared now (enable_continuous_updates enable x y w h) = tt
  handle_ends deflate shared now (client_fence flags payload) = tt
  handle_ends deflate shared now (set_desktop_size width height screens) = tt

-- A message ends a session if and only if it is a SetPixelFormat whose format does not validate,
-- and the error that ends it is that of the validation; a session handles every other message.
pub handle-stopped :
    {State : Type 0} (encoders : Encoders State) (deflate : Deflate) (shared : Shared)
    (now : Instant) (s : Session State) (m : ClientMessage) (why : Fault)
    → (handle encoders deflate shared now s m ≡ stopped why → IsRefused m why)
      × (IsRefused m why → handle encoders deflate shared now s m ≡ stopped why)
unfolding handle change_format format_checked
handle-stopped encoders deflate shared now s m why = (
  λ h. subst (EndsWell encoders s m) h (handle_ends encoders s deflate shared now m),
  λ refused.
      let is = refused.1.1.0 in
      let bad = refused.1.1.1.0 in let says = refused.1.1.1.1 in rw (is, bad, says) refl,
)
