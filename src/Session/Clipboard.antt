-- ===== src/Session/Clipboard.antt =====
-- The clipboard of a session: `clip_moved`, `extended_clipboard` and `onto_the_desk` of
-- crates/alloyvnc/src/session.rs. `deflate` is the compressor of Proto.Clipboard.
use Prim.Native.Nat.{bit_and}
use alloyvnc.Base.{
  ℕ, Bool, true, false, not, ◌&&◌, Option, none, some, List, [], ◌∷◌, ◌++◌, length, ltb, ◌==◌,
  if◌then◌else◌,
}
use alloyvnc.Proto.Wire.{Bytes}
use alloyvnc.Proto.Text.{Text, as_bytes}
use alloyvnc.Proto.Clipboard.{
  ClipboardMessage, caps, request, peek, notify, provide, unknown, Deflate, max_cut_text,
  action_notify, action_request, format_text, clipboard_flags, clipboard_provide_text,
}
use alloyvnc.Proto.Server.{write_server_clipboard, write_server_cut_text}
use alloyvnc.Session.{Session, ClipPeer, desk_clipboard, is_some}

unfoldable pub eq_text : Text → Text → Bool
eq_text [] [] = true
eq_text (a ∷ s) (b ∷ t) = a == b && eq_text s t
eq_text _ _ = false

-- `self.clip_echo.as_deref() == Some(clip.text.as_str())`
unfoldable pub is_echo : Option Text → Text → Bool
unfolding eq_text
is_echo none text = false
is_echo (some echo) text = eq_text echo text

abbrev pub has_flag : ℕ → ℕ → Bool
has_flag flags flag = not (bit_and flags flag == 0)

abbrev pub first_size : List ℕ → ℕ
first_size [] = 0
first_size (n ∷ sizes) = n

-- `match &self.clip_ext`: the message, and the text that is held for a request.
unfoldable pub clip_message : Deflate → Option ClipPeer → Option Text → Text → Bytes × Option Text
clip_message deflate none held text = (write_server_cut_text text, held)
clip_message deflate (some peer) held text =
    if has_flag peer.actions action_notify && has_flag peer.formats format_text
    then (write_server_clipboard (clipboard_flags action_notify format_text), some text)
    else if has_flag peer.formats format_text
    then (write_server_clipboard (clipboard_provide_text deflate text), held)
    else (write_server_cut_text text, held)

module _ {State : Type 0} where
  abbrev pub queue : Session State → Bytes → Session State
  queue s buf = record s { outbox = s.outbox ++ buf ∷ [] }

  unfoldable pub onto_the_desk : Session State → Text → Session State
  onto_the_desk s text = record s {
    desk = s.desk ++ desk_clipboard text ∷ [];
    clip_echo = some text;
  }

  unfoldable pub clip_moved : Deflate → Session State → Text → Session State
  unfolding is_echo clip_message
  clip_moved deflate s text =
      if is_echo s.clip_echo text
      then s
      else if ltb max_cut_text (length (as_bytes text))
      then s
      else record s {
        clip_held = (clip_message deflate s.clip_ext s.clip_held text).1;
        outbox = s.outbox ++ (clip_message deflate s.clip_ext s.clip_held text).0 ∷ [];
      }

  unfoldable pub extended_clipboard : Deflate → Session State → ClipboardMessage → Session State
  unfolding onto_the_desk
  extended_clipboard deflate s (caps formats actions sizes) = record s {
    clip_ext = some (record {
      actions = actions;
      formats = formats;
      text_max = if has_flag formats format_text then first_size sizes else 0;
    });
  }
  extended_clipboard deflate s (request formats) = elim s.clip_held [
    | some text ↦
        if has_flag formats format_text
        then queue s (write_server_clipboard (clipboard_provide_text deflate text))
        else s
    | none ↦ s
  ]
  extended_clipboard deflate s (peek formats) = queue s (
      write_server_clipboard
        (clipboard_flags action_notify (if is_some s.clip_held then format_text else 0)))
  extended_clipboard deflate s (notify formats) =
      if has_flag formats format_text
      then queue s (write_server_clipboard (clipboard_flags action_request format_text))
      else s
  extended_clipboard deflate s (provide (some text)) = onto_the_desk s text
  extended_clipboard deflate s (provide none) = s
  extended_clipboard deflate s (unknown flags) = s
