-- ===== src/Session/Handle.antt =====
-- `handle` of crates/alloyvnc/src/session.rs: what each client message does to a session.
use Prim.Native.Nat.{bit_and, bit_or}
use alloyvnc.Base.{
  ℕ, ◌+◌, ◌-◌, ◌*◌, ◌%◌, ◌^◌, Bool, true, not, ◌&&◌, Option, none, some, List, [], ◌∷◌, ◌++◌, ◌==◌,
  if◌then◌else◌,
}
use alloyvnc.Base.Words.{I32, i32, bits_i32, u16_mod, u32_mod}
use alloyvnc.Region.Rect
use alloyvnc.Region.Rect.{Rect}
use alloyvnc.Region.Bands
use alloyvnc.Flow
use alloyvnc.Flow.{Instant}
use alloyvnc.Proto.Error.{Result, ok, err}
use alloyvnc.Proto.Wire.{Bytes, of_be32}
use alloyvnc.Proto.PixelFormat
use alloyvnc.Proto.PixelFormat.{PixelFormat}
use alloyvnc.Proto.Encoding
use alloyvnc.Proto.Clipboard.{
  Deflate, max_cut_text, clipboard_caps, format_text, action_request, action_peek, action_notify,
  action_provide,
}
use alloyvnc.Proto.Message.{
  Screen, ClientMessage, set_pixel_format, set_encodings, framebuffer_update_request, key_event,
  pointer_event, client_cut_text, extended_clipboard, unreadable_clipboard,
  enable_continuous_updates, client_fence, set_desktop_size, qemu_key_event,
}
use alloyvnc.Proto.Server.{
  write_framebuffer_update_header, write_rect_header, write_end_of_continuous_updates,
  write_server_fence, write_server_clipboard, write_extended_desktop_size,
}
use alloyvnc.Encode.Framebuffer
use alloyvnc.Encode.Convert.{eq_format}
use alloyvnc.Session.{
  Session, Shared, Encoders, desk_key, desk_pointer, Served, served, stopped, wire,
  contains_encoding, supports, cursor_encoding, read_choice, eq_choice, build, is_some,
}
use alloyvnc.Session.Clipboard.{queue, onto_the_desk}
use alloyvnc.Session.Clipboard as Clips

abbrev pub fence_block_before : ℕ
fence_block_before = 1

abbrev pub fence_block_after : ℕ
fence_block_after = 2

abbrev pub fence_sync_next : ℕ
fence_sync_next = 4

abbrev pub fence_request : ℕ
fence_request = 2 ^ 31

abbrev pub reason_server : ℕ
reason_server = 0

abbrev pub reason_this_client : ℕ
reason_this_client = 1

abbrev pub status_ok : ℕ
status_ok = 0

abbrev pub status_prohibited : ℕ
status_prohibited = 1

-- `as u16` of an `i32`
abbrev pub as_u16 : I32 → ℕ
as_u16 c = bits_i32 c % u16_mod

-- `<[u8; 8]>::try_from` and `u64::from_be_bytes`
unfoldable pub sequence_of : Bytes → Option ℕ
sequence_of (a ∷ b ∷ c ∷ d ∷ e ∷ f ∷ g ∷ h ∷ []) = some (of_be32 a b c d * 2 ^ 32 + of_be32 e f g h)
sequence_of _ = none

-- `enumerate` from `i` on
unfoldable pub screens_from : ℕ → List Rect → List Screen
screens_from i [] = []
screens_from i (r ∷ rs) =
    record {
      id = (i + 1) % u32_mod;
      x = as_u16 r.x1;
      y = as_u16 r.y1;
      width = as_u16 (Rect.width r);
      height = as_u16 (Rect.height r);
      flags = 0;
    }
    ∷ screens_from (i + 1) rs

-- A rectangle of four `u16`.
abbrev pub wire_rect : ℕ → ℕ → ℕ → ℕ → Rect
wire_rect x y w h = Rect.new (i32 x) (i32 y) (i32 w) (i32 h)

abbrev pub own_caps : Bytes
own_caps =
    clipboard_caps format_text
      (bit_or (bit_or (bit_or action_request action_peek) action_notify) action_provide)
      (max_cut_text ∷ [])

abbrev pub fence_response : ℕ → Bytes → Bytes
fence_response flags payload =
    write_server_fence (bit_and flags (u32_mod - 1 - fence_request)) payload

module _ {State : Type 0} where
  -- `write_layout_rect`: what it appends.
  unfoldable pub layout_rect : Shared → Session State → ℕ → ℕ → Bytes
  unfolding screens_from
  layout_rect shared s reason status =
      write_rect_header reason status (s.client_size.0 % u16_mod) (s.client_size.1 % u16_mod)
        Encoding.pseudo_extended_desktop_size
      ++ write_extended_desktop_size (screens_from 0 shared.screens)

  -- A format that validates; it replaces the encoder if it is another one.
  unfoldable pub format_checked :
      Encoders State → Session State → PixelFormat → Result (Unit {0}) → Served (Session State)
  format_checked encoders s pf (err e) = stopped (wire e)
  format_checked encoders s pf (ok _) =
      served
        (if eq_format pf s.pf then s else record s { pf = pf; coder = build encoders s.choice })

  unfoldable pub change_format :
      Encoders State → Session State → PixelFormat → Served (Session State)
  unfolding format_checked
  change_format encoders s pf = format_checked encoders s pf (PixelFormat.validate pf)

  -- The announcements of SetEncodings, each of which looks at the old list as well.
  unfoldable pub offer_continuous : Session State → List I32 → Session State
  offer_continuous s list =
      if contains_encoding list Encoding.pseudo_continuous_updates && not s.continuous_offered
      then record s {
        outbox = s.outbox ++ write_end_of_continuous_updates ∷ [];
        continuous_offered = true;
      }
      else s

  unfoldable pub offer_clipboard : Session State → List I32 → Session State
  offer_clipboard s list =
      if contains_encoding list Encoding.pseudo_extended_clipboard
        && not (supports s Encoding.pseudo_extended_clipboard)
      then queue s (write_server_clipboard own_caps)
      else s

  unfoldable pub offer_measure : Session State → List I32 → Session State
  offer_measure s list =
      if contains_encoding list Encoding.pseudo_fence
      then record s { flow = Flow.measure s.flow }
      else s

  unfoldable pub offer_layout : Session State → List I32 → Session State
  offer_layout s list =
      if contains_encoding list Encoding.pseudo_extended_desktop_size
        && not (supports s Encoding.pseudo_extended_desktop_size)
      then record s { layout_pending = true }
      else s

  unfoldable pub choose : Encoders State → Session State → Session State
  choose encoders s = if eq_choice (read_choice s.encodings) s.choice then s else record s {
    choice = read_choice s.encodings;
    coder = build encoders (read_choice s.encodings);
  }

  unfoldable pub fetch_cursor : Shared → Session State → Session State
  fetch_cursor shared s =
      if not (is_some s.cursor_pending) && is_some (cursor_encoding s)
      then record s { cursor_pending = shared.cursor }
      else s

  unfoldable pub change_encodings :
      Encoders State → Shared → Session State → List I32 → Session State
  unfolding offer_continuous offer_clipboard offer_measure offer_layout choose fetch_cursor
  change_encodings encoders shared s list =
      let offered : Session State =
        offer_layout (offer_measure (offer_clipboard (offer_continuous s list) list) list) list in
      fetch_cursor shared (choose encoders (record offered { encodings = list }))

  unfoldable pub request_update : Shared → Session State → Bool → Rect → Session State
  request_update shared s incremental asked =
      let r : Rect = Rect.intersection asked (Framebuffer.bounds shared.fb) in
      record s {
        pending = if incremental then s.pending else Bands.add s.pending r;
        requested = elim s.requested [ none ↦ some r | some q ↦ some (Rect.union_bounds q r) ];
      }

  unfoldable pub change_continuous : Shared → Session State → Bool → Rect → Session State
  change_continuous shared s enable asked =
      if enable
      then record s { continuous = some (Rect.intersection asked (Framebuffer.bounds shared.fb)) }
      else record s { continuous = none; outbox = s.outbox ++ write_end_of_continuous_updates ∷ [] }

  -- A fence of the client: an echo of one of the server's own, or a request.
  unfoldable pub echoed : Session State → Instant → Bytes → Session State
  unfolding sequence_of
  echoed s now payload = elim (sequence_of payload) [
    | none ↦ s
    | some seq ↦ record s { flow = (Flow.pong s.flow seq now).1 }
  ]

  unfoldable pub fence_asked : Session State → ℕ → Bytes → Session State
  fence_asked s flags payload =
      let paused : Bool = if bit_and flags fence_block_after == 0 then s.reader_paused else true in
      if bit_and flags fence_sync_next == 0
      then record s {
        reader_paused = paused;
        outbox = s.outbox ++ fence_response flags payload ∷ [];
      }
      else record s { reader_paused = paused; held_fence = some (fence_response flags payload) }

  unfoldable pub refuse_resize : Shared → Session State → Session State
  unfolding layout_rect
  refuse_resize shared s = queue s (
      write_framebuffer_update_header 1
      ++ layout_rect shared s reason_this_client status_prohibited)

  unfoldable pub handle :
      Encoders State
      → Deflate
      → Shared
      → Instant
      → Session State
      → ClientMessage
      → Served (Session State)
  unfolding change_format change_encodings request_update change_continuous echoed fence_asked
      refuse_resize
  handle encoders deflate shared now s (set_pixel_format pf) = change_format encoders s pf
  handle encoders deflate shared now s (set_encodings list) =
      served (change_encodings encoders shared s list)
  handle encoders deflate shared now s (framebuffer_update_request incremental x y w h) =
      served (request_update shared s incremental (wire_rect x y w h))
  handle encoders deflate shared now s (key_event down keysym) =
      served (record s { desk = s.desk ++ desk_key keysym down ∷ [] })
  handle encoders deflate shared now s (qemu_key_event down keysym keycode) =
      served (record s { desk = s.desk ++ desk_key keysym down ∷ [] })
  handle encoders deflate shared now s (pointer_event buttons x y) =
      served (record s { desk = s.desk ++ desk_pointer x y buttons ∷ [] })
  handle encoders deflate shared now s (client_cut_text text) = served (onto_the_desk s text)
  handle encoders deflate shared now s (extended_clipboard message) =
      served (Clips.extended_clipboard deflate s message)
  handle encoders deflate shared now s (unreadable_clipboard flags why) = served s
  handle encoders deflate shared now s (enable_continuous_updates enable x y w h) =
      served (change_continuous shared s enable (wire_rect x y w h))
  handle encoders deflate shared now s (client_fence flags payload) = served (
      if bit_and flags fence_request == 0
      then echoed s now payload
      else fence_asked s flags payload)
  handle encoders deflate shared now s (set_desktop_size width height screens) =
      served (refuse_resize shared s)
