-- ===== src/Proto/Tests.antt =====
-- The theorems about the wire format at concrete messages.
use alloyvnc.Base.{
  ℕ, ◌≤◌, ◌<◌, ◌≡◌, refl, ◌⊎◌, inl, inr, true, false, some, none, List, [], ◌∷◌, ◌++◌, All, length,
  arith,
}
use alloyvnc.Base.Words.{I32, neg32}
use alloyvnc.Proto.Error.{Error, ok, err, ◌>>=◌}
use alloyvnc.Proto.Wire.{Bytes}
use alloyvnc.Proto.Text.{Text, as_bytes, replace_crlf}
use alloyvnc.Proto.Text.Utf8.{IsScalar}
use alloyvnc.Proto.PixelFormat
use alloyvnc.Proto.PixelFormat.{PixelFormat, bgrx32, validate, wire_len}
use alloyvnc.Proto.PixelFormat.Laws.{InRange, Fits, parse-write, validate_lem}
use alloyvnc.Proto.Encoding.{tight}
use alloyvnc.Proto.Clipboard.{
  Inflate, Deflate, max_cut_text, parse_clipboard, clipboard_provide_text, provide,
}
use alloyvnc.Proto.Clipboard.Laws.{provide_lem}
use alloyvnc.Proto.Message.{ClientMessage, key_event, set_encodings, parse_client}
use alloyvnc.Proto.Message.Write.{write_key_event, write_set_encodings}
use alloyvnc.Proto.Message.Incremental.{parse_client-append, parse_client_prefix}
use alloyvnc.Proto.Message.RoundTrip.{Written, encodings, key, parse_client-write}
use alloyvnc.Proto.Server.{write_extended_desktop_size, parse_extended_desktop_size}
use alloyvnc.Proto.Server.Laws.{IsScreen, parse-write_extended_desktop_size}
use alloyvnc.Proto.Message.{Screen}
use alloyvnc.Proto.Handshake.{ServerInit, write, parse}
use alloyvnc.Proto.Handshake as Handshake
use alloyvnc.Proto.Handshake.Laws.{Sendable, for_version-parse_version, init-write}

-- A compression that changes nothing.
abbrev plain_inflate : Inflate
plain_inflate bytes = record { plain = bytes; broken = false }

abbrev plain_deflate : Deflate
plain_deflate bytes = bytes

bgrx32-InRange : InRange bgrx32
bgrx32-InRange = omega arith

parse-write_example :
    (PixelFormat.parse (PixelFormat.write bgrx32 ++ 7 ∷ []) ≡ ok bgrx32)
    × (length (PixelFormat.write bgrx32) ≡ wire_len)
parse-write_example = parse-write bgrx32 (7 ∷ []) bgrx32-InRange

validate_lem_example :
    (validate bgrx32 ≡ ok tt
      → (bgrx32.true_colour ≡ true)
        × ((bgrx32.bits_per_pixel ≡ 8)
            ⊎ ((bgrx32.bits_per_pixel ≡ 16) ⊎ (bgrx32.bits_per_pixel ≡ 32)))
        × (bgrx32.depth ≤ bgrx32.bits_per_pixel)
        × Fits bgrx32.bits_per_pixel bgrx32.red_max bgrx32.red_shift
        × Fits bgrx32.bits_per_pixel bgrx32.green_max bgrx32.green_shift
        × Fits bgrx32.bits_per_pixel bgrx32.blue_max bgrx32.blue_shift)
    × ((bgrx32.true_colour ≡ true)
        → (bgrx32.bits_per_pixel ≡ 8)
          ⊎ ((bgrx32.bits_per_pixel ≡ 16) ⊎ (bgrx32.bits_per_pixel ≡ 32))
        → bgrx32.depth ≤ bgrx32.bits_per_pixel
        → Fits bgrx32.bits_per_pixel bgrx32.red_max bgrx32.red_shift
        → Fits bgrx32.bits_per_pixel bgrx32.green_max bgrx32.green_shift
        → Fits bgrx32.bits_per_pixel bgrx32.blue_max bgrx32.blue_shift
        → validate bgrx32 ≡ ok tt)
validate_lem_example = validate_lem bgrx32

-- One, two, three and four bytes: `hé✓` and a character beyond the basic plane.
abbrev sample_text : Text
sample_text = 0x68 ∷ 0xe9 ∷ 0x2713 ∷ 0x1f600 ∷ []

sample_scalars : All IsScalar sample_text
sample_scalars = (
  inl (omega arith),
  (inl (omega arith), (inl (omega arith), (inr (omega arith, omega arith), tt))),
)

abbrev two_encodings : List I32
two_encodings = tight ∷ neg32 239 ∷ []

abbrev encodings_bytes : Bytes
encodings_bytes = write_set_encodings two_encodings

two_encodings-Written : Written plain_inflate (set_encodings two_encodings) encodings_bytes
two_encodings-Written = encodings two_encodings (omega arith) (omega arith)

parse_client-write_example :
    parse_client plain_inflate (encodings_bytes ++ write_key_event true 97)
    ≡ ok (some (set_encodings two_encodings, length encodings_bytes))
parse_client-write_example =
    parse_client-write plain_inflate (write_key_event true 97) two_encodings-Written

abbrev key_bytes : Bytes
key_bytes = 4 ∷ 1 ∷ 0 ∷ 0 ∷ 0 ∷ 0 ∷ 0 ∷ 97 ∷ []

parse_client-append_example :
    ((m : ClientMessage) (used : ℕ)
      → parse_client plain_inflate key_bytes ≡ ok (some (m, used))
      → (parse_client plain_inflate (key_bytes ++ 4 ∷ 0 ∷ []) ≡ ok (some (m, used)))
        × (used ≤ length key_bytes))
    × ((e : Error)
        → parse_client plain_inflate key_bytes ≡ err e
        → parse_client plain_inflate (key_bytes ++ 4 ∷ 0 ∷ []) ≡ err e)
parse_client-append_example = parse_client-append plain_inflate key_bytes (4 ∷ 0 ∷ [])

key_whole :
    parse_client plain_inflate ((4 ∷ 1 ∷ 0 ∷ []) ++ 0 ∷ 0 ∷ 0 ∷ 0 ∷ 97 ∷ [])
    ≡ ok (some (key_event true 97, 8))
unfolding write_key_event
key_whole = parse_client-write plain_inflate [] (key true 97 (omega arith))

parse_client_prefix_example : parse_client plain_inflate (4 ∷ 1 ∷ 0 ∷ []) ≡ ok none
parse_client_prefix_example =
    parse_client_prefix plain_inflate (4 ∷ 1 ∷ 0 ∷ []) (0 ∷ 0 ∷ 0 ∷ 0 ∷ 97 ∷ []) (key_event true 97)
      8 key_whole (omega arith)

-- `a`, a Windows line end, `b`.
abbrev lines_text : Text
lines_text = 97 ∷ 13 ∷ 10 ∷ 98 ∷ []

lines_short : length (as_bytes (replace_crlf lines_text)) < max_cut_text
unfolding as_bytes replace_crlf
lines_short = omega arith

provide_lem_example :
    parse_clipboard plain_inflate (clipboard_provide_text plain_deflate lines_text)
    ≡ ok (provide (some (replace_crlf (replace_crlf lines_text))))
provide_lem_example =
    provide_lem plain_inflate plain_deflate lines_text (λ bs. refl)
      (inl (omega arith), (inl (omega arith), (inl (omega arith), (inl (omega arith), tt))))
      lines_short

abbrev desk : ServerInit
desk = record { width = 1920; height = 1080; pixel_format = bgrx32; name = sample_text }

desk-Sendable : Sendable desk
unfolding as_bytes
desk-Sendable = record {
  wide = omega arith;
  high = omega arith;
  pixels = bgrx32-InRange;
  short = omega arith;
  scalars = sample_scalars;
}

init-write_example : parse (write desk ++ 2 ∷ []) ≡ ok (some (desk, length (write desk)))
init-write_example = init-write desk (2 ∷ []) desk-Sendable

for_version-parse_version_example :
    (Handshake.parse_version (Handshake.version_bytes Handshake.v37) >>= λ v.
    Handshake.for_version v.0 v.1)
    ≡ ok Handshake.v37
for_version-parse_version_example = for_version-parse_version Handshake.v37

abbrev two_screens : List Screen
two_screens =
    record { id = 1; x = 0; y = 0; width = 1920; height = 1080; flags = 0 }
    ∷ record { id = 2; x = 1920; y = 0; width = 1280; height = 1024; flags = 7 }
    ∷ []

two_screens_fit : All IsScreen two_screens
two_screens_fit = omega arith

parse-write_extended_desktop_size_example :
    parse_extended_desktop_size (write_extended_desktop_size two_screens ++ 9 ∷ [])
    ≡ ok (some (two_screens, length (write_extended_desktop_size two_screens)))
parse-write_extended_desktop_size_example =
    parse-write_extended_desktop_size two_screens (9 ∷ []) (omega arith) two_screens_fit
