-- ===== src/Proto/Clipboard.antt =====
-- The Extended Clipboard of crates/alloyvnc-proto/src/msg.rs. The zlib library is not part of the
-- program: `inflate` says what its decoder reads from a body, and `deflate` what its encoder writes.
pub mod Laws
use Prim.Native.Nat.{bit_and, bit_or}
use alloyvnc.Base.{
  ℕ, zero, suc, ◌+◌, ◌-◌, ◌*◌, ◌/◌, ◌%◌, ◌^◌, Bool, true, false, not, Option, none, some, List, [],
  ◌∷◌, ◌++◌, length, ltb, leb, ◌==◌, if◌then◌else◌,
}
use alloyvnc.Base as Base
use alloyvnc.Base.Words.{u32_mod}
use alloyvnc.Proto.Error.{
  Error, too_long, truncated, clipboard, Result, ok, err, ◌>>=◌, ◌>>◌, refuse,
}
use alloyvnc.Proto.Wire.{Bytes, be32, of_be32, split_at, byte_at}
use alloyvnc.Proto.Text.{Text, as_bytes, from_utf8_lossy, replace_crlf}

-- What a decoder delivers: its bytes, and after them either the end of its input or a failure
-- (`broken`), as `Read` documents for a `ZlibDecoder` over a slice.
pub record Stream : Type 0 where
  pub plain : Bytes
  pub broken : Bool

abbrev pub Inflate : Type 0
Inflate = Bytes → Stream

abbrev pub Deflate : Type 0
Deflate = Bytes → Bytes

abbrev pub max_cut_text : ℕ
max_cut_text = 2 ^ 20

abbrev pub action_caps : ℕ
action_caps = 2 ^ 24

abbrev pub action_request : ℕ
action_request = 2 ^ 25

abbrev pub action_peek : ℕ
action_peek = 2 ^ 26

abbrev pub action_notify : ℕ
action_notify = 2 ^ 27

abbrev pub action_provide : ℕ
action_provide = 2 ^ 28

abbrev pub action_all : ℕ
action_all = 0x1f00_0000

abbrev pub format_text : ℕ
format_text = 1

abbrev pub format_all : ℕ
format_all = 0x1f

abbrev pub format_every : ℕ
format_every = 0x00ff_ffff

pub data ClipboardMessage : Type 0 where
  -- formats, actions, sizes
  caps : ℕ → ℕ → List ℕ → ClipboardMessage
  request : ℕ → ClipboardMessage
  peek : ℕ → ClipboardMessage
  notify : ℕ → ClipboardMessage
  provide : Option Text → ClipboardMessage
  unknown : ℕ → ClipboardMessage

unfoldable pub answers : ClipboardMessage → ℕ → Bool
answers (caps formats actions sizes) action = not (bit_and actions action == 0)
answers _ action = false

-- `read_exact`: an early end is told from a stream that is no stream (`inflate_trouble`).
unfoldable pub read_exact : ℕ → Stream → Result (Bytes × Stream)
read_exact n z = elim (split_at n z.plain) [
  | none ↦
      if z.broken
      then err (clipboard "the provide does not inflate")
      else err (truncated "extended clipboard provide")
  | some (front, rest) ↦ ok (front, record z { plain = rest })
]

-- `strip_suffix(b"\0")`
unfoldable pub strip_null : Bytes → Bytes
strip_null [] = []
strip_null (b ∷ []) = if b == 0 then [] else b ∷ []
strip_null (b ∷ c ∷ bs) = b ∷ strip_null (c ∷ bs)

unfoldable pub clipboard_text : Bytes → Text
clipboard_text bytes = replace_crlf (from_utf8_lossy (strip_null bytes))

abbrev pub has_bit : ℕ → ℕ → Bool
has_bit flags bit = flags / 2 ^ bit % 2 == 1

-- `for bit in 0..24`, with the rounds that are left.
unfoldable pub provided_loop : ℕ → ℕ → ℕ → Stream → ℕ → Option Text → Result (Option Text)
provided_loop zero bit flags z budget text = ok text
provided_loop (suc left) bit flags z budget text = elim (has_bit flags bit) [
  | false ↦ provided_loop left (bit + 1) flags z budget text
  | true ↦ do
    (head, z') ← read_exact 4 z
    let len = of_be32 (byte_at head 0) (byte_at head 1) (byte_at head 2) (byte_at head 3)
    refuse (ltb budget len) (too_long "extended clipboard provide" len max_cut_text)
    (bytes, z'') ← read_exact len z'
    provided_loop left (bit + 1) flags z'' (budget - len)
        (if bit == 0 then some (clipboard_text bytes) else text)
]

-- `count_ones` of the lowest bits.
unfoldable pub count_ones : ℕ → ℕ → ℕ
count_ones zero n = 0
count_ones (suc left) n = n % 2 + count_ones left (n / 2)

-- `as_chunks::<4>()` and `u32::from_be_bytes`
unfoldable pub words32 : Bytes → List ℕ
words32 (a ∷ b ∷ c ∷ d ∷ rest) = of_be32 a b c d ∷ words32 rest
words32 _ = []

module _ (inflate : Inflate) where
  unfoldable pub provided_text : ℕ → Bytes → Result (Option Text)
  provided_text flags rest = provided_loop 24 0 flags (inflate rest) max_cut_text none

  unfoldable pub parse_actions : ℕ → Bytes → Result ClipboardMessage
  parse_actions flags rest =
      let formats : ℕ = bit_and flags format_all in
      let actions : ℕ = bit_and flags action_all in
      let want : ℕ = count_ones 24 (bit_and flags format_every) * 4 in
      if not (bit_and actions action_caps == 0)
      then if ltb (length rest) want
        then err (truncated "extended clipboard caps")
        else ok (caps formats actions (words32 (Base.take want rest)))
      else if actions == action_request
      then ok (request formats)
      else if actions == action_peek
      then ok (peek formats)
      else if actions == action_notify
      then ok (notify formats)
      else if actions == action_provide
      then (do text ← provided_text flags rest; ok (provide text))
      else ok (unknown flags)

  unfoldable pub parse_clipboard : Bytes → Result ClipboardMessage
  parse_clipboard (a ∷ b ∷ c ∷ d ∷ rest) = parse_actions (of_be32 a b c d) rest
  parse_clipboard _ = err (truncated "extended clipboard")

unfoldable pub be32_list : List ℕ → Bytes
be32_list [] = []
be32_list (n ∷ ns) = be32 n ++ be32_list ns

unfoldable pub clipboard_caps : ℕ → ℕ → List ℕ → Bytes
unfolding be32_list
clipboard_caps formats actions sizes =
    be32 (bit_or (bit_or formats actions) action_caps) ++ be32_list sizes

unfoldable pub clipboard_flags : ℕ → ℕ → Bytes
clipboard_flags action formats = be32 (bit_or action formats)

unfoldable pub provide_block : Text → Bytes
provide_block text =
    let utf8 : Bytes = as_bytes (replace_crlf text) in
    be32 ((length utf8 + 1) % u32_mod) ++ (utf8 ++ 0 ∷ [])

unfoldable pub clipboard_provide_text : Deflate → Text → Bytes
clipboard_provide_text deflate text =
    be32 (bit_or action_provide format_text) ++ deflate (provide_block text)
