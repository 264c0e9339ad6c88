-- ===== src/Session.antt =====
-- crates/alloyvnc/src/session.rs: one client's session, and what it reads of
-- crates/alloyvnc/src/shared.rs. The stateful encoders of crates/alloyvnc-encode are an interface.
pub mod Frames
pub mod Clipboard
pub mod Handle
pub mod Update
pub mod Send
pub mod Picture
pub mod Faults
pub mod Echo
pub mod Reader
mod Tests
use alloyvnc.Base.{
  ℕ, ◌+◌, ◌*◌, ◌/◌, Bool, true, false, ◌&&◌, ◌||◌, Option, none, some, List, [], ◌∷◌, ◌++◌, any,
  max, min, ltb, ◌==◌, if◌then◌else◌,
}
use alloyvnc.Base.Words.{I32, add64}
use alloyvnc.Region.Rect.{Rect, Move}
use alloyvnc.Region.Bands.{Region}
use alloyvnc.Region.Bands
use alloyvnc.Flow
use alloyvnc.Flow.{Congestion, Limits, Instant, Duration}
use alloyvnc.Proto.Error.{Error}
use alloyvnc.Proto.Wire.{Bytes}
use alloyvnc.Proto.Text.{Text}
use alloyvnc.Proto.PixelFormat.{PixelFormat, bgrx32}
use alloyvnc.Proto.Encoding
use alloyvnc.Encode.Framebuffer
use alloyvnc.Encode.Framebuffer.{Framebuffer}
use alloyvnc.Encode.Cursor.{CursorShape}

-- `Spent`: the bytes of a Tight rectangle by the way they were sent.
pub record Spent : Type 0 where
  pub fill : ℕ
  pub palette : ℕ
  pub jpeg : ℕ
  pub copy : ℕ

-- What the session takes of the encoders that keep streams: how to start one, what it writes for a
-- rectangle, and how Tight cuts a large rectangle into pieces.
pub record Encoders (State : Type 0) : Type 0 where
  pub new_hextile : State
  pub new_zrle : ℕ → State
  pub new_tight : ℕ → Option ℕ → State
  pub encode_hextile : State → Framebuffer → Rect → PixelFormat → State × Bytes
  pub encode_zrle : State → Framebuffer → Rect → PixelFormat → State × Bytes
  pub encode_tight : State → Framebuffer → Rect → PixelFormat → State × Bytes × Spent
  pub piece_rects : Rect → List Rect

pub data Coder (State : Type 0) : Type 0 where
  coder_raw : Coder State
  coder_hextile : State → Coder State
  coder_zrle : State → Coder State
  coder_tight : State → Coder State

pub record Choice : Type 0 where
  pub encoding : I32
  pub level : ℕ
  pub quality : Option ℕ

abbrev pub default_level : ℕ
default_level = 1

abbrev pub writable : I32 → Bool
writable e =
    e == Encoding.tight || (e == Encoding.zrle || (e == Encoding.hextile || e == Encoding.raw))

-- `iter().copied().find(..)`
unfoldable pub find_writable : List I32 → Option I32
find_writable [] = none
find_writable (e ∷ list) = let rest = find_writable list in if writable e then some e else rest

-- `iter().find_map(..)`
unfoldable pub find_level : (I32 → Option ℕ) → List I32 → Option ℕ
find_level f [] = none
find_level f (e ∷ list) = elim (f e) [ some level ↦ some level | none ↦ find_level f list ]

-- `Choice::read`
unfoldable pub read_choice : List I32 → Choice
unfolding find_writable find_level
read_choice list = record {
  encoding = elim (find_writable list) [ some e ↦ e | none ↦ Encoding.raw ];
  level = elim (find_level Encoding.tight_compression list) [
    | some l ↦ max 1 (min l 6)
    | none ↦ default_level
  ];
  quality = find_level Encoding.tight_quality list;
}

-- The derived `==` of `Choice`.
unfoldable pub eq_quality : Option ℕ → Option ℕ → Bool
eq_quality none none = true
eq_quality (some q) (some r) = q == r
eq_quality _ _ = false

unfoldable pub eq_choice : Choice → Choice → Bool
unfolding eq_quality
eq_choice c d = c.encoding == d.encoding && (c.level == d.level && eq_quality c.quality d.quality)

unfoldable pub build : {State : Type 0} → Encoders State → Choice → Coder State
build encoders c =
    if c.encoding == Encoding.tight
    then coder_tight (encoders.new_tight c.level c.quality)
    else if c.encoding == Encoding.zrle
    then coder_zrle (encoders.new_zrle c.level)
    else if c.encoding == Encoding.hextile
    then coder_hextile encoders.new_hextile
    else coder_raw

pub record ClipPeer : Type 0 where
  pub actions : ℕ
  pub formats : ℕ
  pub text_max : ℕ

-- What a session does to the desk through `Shared`: keys, the pointer, the clipboard.
pub data DeskEvent : Type 0 where
  desk_key : ℕ → Bool → DeskEvent
  desk_pointer : ℕ → ℕ → ℕ → DeskEvent
  desk_clipboard : Text → DeskEvent

-- The session's own counters of `SessionStats`; `latency` is what the histogram was given.
pub record Counters : Type 0 where
  pub updates : ℕ
  pub rects : ℕ
  pub copy_rects : ℕ
  pub cursor_rects : ℕ
  pub bytes_copy_rect : ℕ
  pub bytes_raw : ℕ
  pub bytes_hextile : ℕ
  pub bytes_zrle : ℕ
  pub bytes_tight : ℕ
  pub spent : Spent
  pub latency : List Duration

abbrev pub zero_counters : Counters
zero_counters = record {
  updates = 0;
  rects = 0;
  copy_rects = 0;
  cursor_rects = 0;
  bytes_copy_rect = 0;
  bytes_raw = 0;
  bytes_hextile = 0;
  bytes_zrle = 0;
  bytes_tight = 0;
  spent = record { fill = 0; palette = 0; jpeg = 0; copy = 0 };
  latency = [];
}

-- What a session reads of `Shared` at one moment.
pub record Shared : Type 0 where
  pub fb : Framebuffer
  pub screens : List Rect
  pub cursor : Option CursorShape

-- `FrameEvent`; its number is for the log.
pub record FrameEvent : Type 0 where
  pub at : Instant
  pub damage : Region
  pub moves : List Move
  pub cursor : Option CursorShape
  pub resized : Bool

-- `desk` is what was done to the desk and `sent` what was handed to the writer, both in order.
pub record Session (State : Type 0) : Type 0 where
  pub pf : PixelFormat
  pub encodings : List I32
  pub client_size : ℕ × ℕ
  pub pending : Region
  pub copies : List Move
  pub cursor_pending : Option CursorShape
  pub layout_pending : Bool
  pub requested : Option Rect
  pub continuous : Option Rect
  pub continuous_offered : Bool
  pub last_update : Option Instant
  pub flow : Congestion
  pub outbox : List Bytes
  pub held_fence : Option Bytes
  pub reader_paused : Bool
  pub newest_frame : Option Instant
  pub clip_echo : Option Text
  pub clip_ext : Option ClipPeer
  pub clip_held : Option Text
  pub coder : Coder State
  pub choice : Choice
  pub counters : Counters
  pub desk : List DeskEvent
  pub sent : List Bytes

-- The session of `run`, once the client has been told the size of the picture.
unfoldable pub start : {State : Type 0} → Limits → Framebuffer → Session State
start limits fb = record {
  pf = bgrx32;
  encodings = [];
  client_size = (fb.width, fb.height);
  pending = Bands.from_rect (Framebuffer.bounds fb);
  copies = [];
  cursor_pending = none;
  layout_pending = false;
  requested = none;
  continuous = none;
  continuous_offered = false;
  last_update = none;
  flow = Flow.new limits;
  outbox = [];
  held_fence = none;
  reader_paused = false;
  newest_frame = none;
  clip_echo = none;
  clip_ext = none;
  clip_held = none;
  coder = coder_raw;
  choice = record { encoding = Encoding.raw; level = default_level; quality = none };
  counters = zero_counters;
  desk = [];
  sent = [];
}

-- Why a session ends; `panicked` is a panic of its task.
pub data Fault : Type 0 where
  wire : Error → Fault
  cannot_follow : Fault
  rectangle_count : Fault
  panicked : Fault

pub data Served {μ} (Value : Type μ) : Type μ where
  stopped : Fault → Served Value
  served : Value → Served Value

-- An outcome that does not end the session satisfies `P`.
abbrev pub Serves : {State : Type 0} → (Session State → Type 0) → Served (Session State) → Type 0
Serves P (stopped why) = Unit
Serves P (served s') = P s'

abbrev pub contains_encoding : List I32 → I32 → Bool
contains_encoding list encoding = any (λ e. e == encoding) list

module _ {State : Type 0} where
  abbrev pub supports : Session State → I32 → Bool
  supports s encoding = contains_encoding s.encodings encoding

  unfoldable pub cursor_encoding : Session State → Option I32
  cursor_encoding s =
      if supports s Encoding.pseudo_cursor_with_alpha
      then some Encoding.pseudo_cursor_with_alpha
      else if supports s Encoding.pseudo_cursor
      then some Encoding.pseudo_cursor
      else none

  unfoldable pub resize_encoding : Session State → Option I32
  resize_encoding s =
      if supports s Encoding.pseudo_extended_desktop_size
      then some Encoding.pseudo_extended_desktop_size
      else if supports s Encoding.pseudo_desktop_size
      then some Encoding.pseudo_desktop_size
      else none

-- `is_some`
abbrev pub is_some {μ} : {Value : Type μ} → Option Value → Bool
is_some none = false
is_some (some value) = true
