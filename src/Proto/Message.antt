-- ===== src/Proto/Message.antt =====
-- The client messages of crates/alloyvnc-proto/src/msg.rs: `parse_client`, one function for each
-- kind of message, and the writers of the other side.
pub mod Write
pub mod Incremental
pub mod RoundTrip
use alloyvnc.Base.{
  ℕ, zero, suc, ◌+◌, ◌-◌, ◌*◌, ◌%◌, ◌^◌, Bool, true, false, Option, none, some, List, [], ◌∷◌, ◌++◌,
  map, length, ltb, leb, ◌==◌, if◌then◌else◌,
}
use alloyvnc.Base.Words.{I32, bits_i32, u32_mod}
use alloyvnc.Proto.Error.{
  Error, unknown_message_type, unknown_qemu_subtype, too_long, Result, ok, err,
}
use alloyvnc.Proto.Wire.{Bytes, to_bool, of_be32}
use alloyvnc.Proto.Text.{Text, latin1_to_string}
use alloyvnc.Proto.ClientType
use alloyvnc.Proto.PixelFormat
use alloyvnc.Proto.PixelFormat.{PixelFormat}
use alloyvnc.Proto.Clipboard.{Inflate, ClipboardMessage, parse_clipboard, max_cut_text, words32}
use alloyvnc.Proto.Cursor.{
  Cursor, Outcome, done, more, fail, Parser, ◌>>=◌, ◌>>◌, pure, raise, lift, refuse_if, new, take,
  skip, u8, u16, u32,
}

abbrev pub max_encodings : ℕ
max_encodings = 1024

abbrev pub max_fence_payload : ℕ
max_fence_payload = 64

abbrev pub max_screens : ℕ
max_screens = 16

pub record Screen : Type 0 where
  pub id : ℕ
  pub x : ℕ
  pub y : ℕ
  pub width : ℕ
  pub height : ℕ
  pub flags : ℕ

pub data ClientMessage : Type 0 where
  set_pixel_format : PixelFormat → ClientMessage
  set_encodings : List I32 → ClientMessage
  -- incremental, x, y, width, height
  framebuffer_update_request : Bool → ℕ → ℕ → ℕ → ℕ → ClientMessage
  -- down, keysym
  key_event : Bool → ℕ → ClientMessage
  -- buttons, x, y
  pointer_event : ℕ → ℕ → ℕ → ClientMessage
  client_cut_text : Text → ClientMessage
  extended_clipboard : ClipboardMessage → ClientMessage
  -- flags, why
  unreadable_clipboard : ℕ → Error → ClientMessage
  -- enable, x, y, width, height
  enable_continuous_updates : Bool → ℕ → ℕ → ℕ → ℕ → ClientMessage
  -- flags, payload
  client_fence : ℕ → Bytes → ClientMessage
  -- width, height, screens
  set_desktop_size : ℕ → ℕ → List Screen → ClientMessage
  -- down, keysym, keycode
  qemu_key_event : Bool → ℕ → ℕ → ClientMessage

pub parse_set_pixel_format : Parser ClientMessage
parse_set_pixel_format = do
  skip 3
  raw ← take PixelFormat.wire_len
  pf ← lift (PixelFormat.parse raw)
  pure (set_pixel_format pf)

pub parse_set_encodings : Parser ClientMessage
parse_set_encodings = do
  skip 1
  n ← u16
  refuse_if (ltb max_encodings n) (too_long "encoding list" n max_encodings)
  raw ← take (n * 4)
  pure (set_encodings (map bits_i32 (words32 raw)))

pub parse_framebuffer_update_request : Parser ClientMessage
parse_framebuffer_update_request = do
  incremental ← u8
  x ← u16
  y ← u16
  width ← u16
  height ← u16
  pure (framebuffer_update_request (to_bool incremental) x y width height)

pub parse_key_event : Parser ClientMessage
parse_key_event = do down ← u8; skip 2; keysym ← u32; pure (key_event (to_bool down) keysym)

pub parse_pointer_event : Parser ClientMessage
parse_pointer_event = do buttons ← u8; x ← u16; y ← u16; pure (pointer_event buttons x y)

-- `raw.first_chunk::<4>().map_or(0, ..)`
pub first_word : Bytes → ℕ
first_word (a ∷ b ∷ c ∷ d ∷ rest) = of_be32 a b c d
first_word _ = 0

pub clipboard_of : Bytes → Result ClipboardMessage → ClientMessage
unfolding first_word
clipboard_of raw (ok message) = extended_clipboard message
clipboard_of raw (err why) = unreadable_clipboard (first_word raw) why

-- `(len as i32) < 0`, and `(len as i32).unsigned_abs()`
abbrev pub is_negative : ℕ → Bool
is_negative len = leb (2 ^ 31) len

abbrev pub unsigned_abs : ℕ → ℕ
unsigned_abs len = if is_negative len then u32_mod - len else len

pub parse_client_cut_text : Inflate → Parser ClientMessage
parse_client_cut_text inflate = do
  skip 3
  len ← u32
  refuse_if (ltb max_cut_text (unsigned_abs len))
      (too_long "cut text" (unsigned_abs len) max_cut_text)
  raw ← take (unsigned_abs len)
  if is_negative len
      then pure (clipboard_of raw (parse_clipboard inflate raw))
      else pure (client_cut_text (latin1_to_string raw))

pub parse_enable_continuous_updates : Parser ClientMessage
parse_enable_continuous_updates = do
  enable ← u8
  x ← u16
  y ← u16
  width ← u16
  height ← u16
  pure (enable_continuous_updates (to_bool enable) x y width height)

pub parse_client_fence : Parser ClientMessage
parse_client_fence = do
  skip 3
  flags ← u32
  n ← u8
  refuse_if (ltb max_fence_payload n) (too_long "fence payload" n max_fence_payload)
  payload ← take n
  pure (client_fence flags payload)

pub parse_screen : Parser Screen
parse_screen = do
  id ← u32
  x ← u16
  y ← u16
  width ← u16
  height ← u16
  flags ← u32
  pure (record { id = id; x = x; y = y; width = width; height = height; flags = flags })

-- `for _ in 0..n`
pub parse_screens : ℕ → Parser (List Screen)
parse_screens zero = pure []
parse_screens (suc n) = do screen ← parse_screen; screens ← parse_screens n; pure (screen ∷ screens)

pub parse_set_desktop_size : Parser ClientMessage
parse_set_desktop_size = do
  skip 1
  width ← u16
  height ← u16
  n ← u8
  skip 1
  refuse_if (ltb max_screens n) (too_long "screen list" n max_screens)
  screens ← parse_screens n
  pure (set_desktop_size width height screens)

pub parse_qemu_key_event : Parser ClientMessage
parse_qemu_key_event = do
  down ← u16
  keysym ← u32
  keycode ← u32
  pure (qemu_key_event (to_bool down) keysym keycode)

pub parse_qemu : Parser ClientMessage
parse_qemu = do
  subtype ← u8
  if subtype == 0 then parse_qemu_key_event else raise (unknown_qemu_subtype subtype)

-- `match kind`
pub parse_kind : Inflate → ℕ → Parser ClientMessage
parse_kind inflate kind =
    if kind == ClientType.set_pixel_format
    then parse_set_pixel_format
    else if kind == ClientType.set_encodings
    then parse_set_encodings
    else if kind == ClientType.framebuffer_update_request
    then parse_framebuffer_update_request
    else if kind == ClientType.key_event
    then parse_key_event
    else if kind == ClientType.pointer_event
    then parse_pointer_event
    else if kind == ClientType.client_cut_text
    then parse_client_cut_text inflate
    else if kind == ClientType.enable_continuous_updates
    then parse_enable_continuous_updates
    else if kind == ClientType.client_fence
    then parse_client_fence
    else if kind == ClientType.set_desktop_size
    then parse_set_desktop_size
    else if kind == ClientType.qemu
    then parse_qemu
    else raise (unknown_message_type kind)

-- `Ok(None)`, `Ok(Some((msg, c.pos)))` or an error.
pub answer : Outcome ClientMessage → Result (Option (ClientMessage × ℕ))
answer (done message c) = ok (some (message, c.pos))
answer more = ok none
answer (fail e) = err e

pub message : Inflate → Parser ClientMessage
message inflate = do kind ← u8; parse_kind inflate kind

pub parse_client : Inflate → Bytes → Result (Option (ClientMessage × ℕ))
unfolding answer message
parse_client inflate buf = answer (message inflate (new buf))
