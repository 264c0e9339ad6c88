-- ===== src/Proto/Server.antt =====
-- The server's side of crates/alloyvnc-proto/src/msg.rs: what each server message writer appends,
-- and the screen list of an ExtendedDesktopSize rectangle.
pub mod Laws
use alloyvnc.Base.{
  ℕ, ◌+◌, ◌-◌, ◌*◌, ◌%◌, ◌^◌, Option, none, some, List, [], ◌∷◌, ◌++◌, length, take, drop, ltb,
  if◌then◌else◌,
}
use alloyvnc.Base.Words.{I32, bits_i32, u8_mod, u32_mod}
use alloyvnc.Proto.Error.{too_long, Result, ok, err, ◌>>◌, refuse}
use alloyvnc.Proto.Wire.{Bytes, be16, be32, of_be16, of_be32, byte_at}
use alloyvnc.Proto.Text.{Text, string_to_latin1}
use alloyvnc.Proto.Message.{Screen, max_screens}

abbrev pub server_framebuffer_update : ℕ
server_framebuffer_update = 0

abbrev pub server_bell : ℕ
server_bell = 2

abbrev pub server_cut_text : ℕ
server_cut_text = 3

abbrev pub server_end_of_continuous_updates : ℕ
server_end_of_continuous_updates = 150

abbrev pub server_fence : ℕ
server_fence = 248

unfoldable pub write_framebuffer_update_header : ℕ → Bytes
write_framebuffer_update_header n_rects = server_framebuffer_update ∷ 0 ∷ be16 n_rects

unfoldable pub write_rect_header : ℕ → ℕ → ℕ → ℕ → I32 → Bytes
write_rect_header x y w h encoding =
    be16 x ++ (be16 y ++ (be16 w ++ (be16 h ++ be32 (bits_i32 encoding))))

unfoldable pub write_bell : Bytes
write_bell = server_bell ∷ []

unfoldable pub write_server_cut_text : Text → Bytes
write_server_cut_text text =
    server_cut_text
    ∷ 0
    ∷ 0
    ∷ 0
    ∷ (be32 (length (string_to_latin1 text) % u32_mod) ++ string_to_latin1 text)

unfoldable pub write_end_of_continuous_updates : Bytes
write_end_of_continuous_updates = server_end_of_continuous_updates ∷ []

unfoldable pub write_server_fence : ℕ → Bytes → Bytes
write_server_fence flags payload =
    server_fence ∷ 0 ∷ 0 ∷ 0 ∷ (be32 flags ++ (length payload % u8_mod) ∷ payload)

-- `(-(body.len() as i32)).to_be_bytes()`: the two's complement of the length.
unfoldable pub write_server_clipboard : Bytes → Bytes
write_server_clipboard body =
    server_cut_text ∷ 0 ∷ 0 ∷ 0 ∷ (be32 ((u32_mod - length body % u32_mod) % u32_mod) ++ body)

unfoldable pub screen_bytes : Screen → Bytes
screen_bytes s =
    be32 s.id ++ (be16 s.x ++ (be16 s.y ++ (be16 s.width ++ (be16 s.height ++ be32 s.flags))))

unfoldable pub screen_list : List Screen → Bytes
unfolding screen_bytes
screen_list [] = []
screen_list (s ∷ screens) = screen_bytes s ++ screen_list screens

unfoldable pub write_extended_desktop_size : List Screen → Bytes
unfolding screen_list
write_extended_desktop_size screens = (length screens % u8_mod) ∷ 0 ∷ 0 ∷ 0 ∷ screen_list screens

-- `as_chunks::<16>()` and the `map` over them; a rest of less than sixteen bytes is dropped.
unfoldable pub screens_of : Bytes → List Screen
screens_of (i0 ∷ i1 ∷ i2 ∷ i3 ∷ x0 ∷ x1 ∷ y0 ∷ y1 ∷ w0 ∷ w1 ∷ h0 ∷ h1 ∷ f0 ∷ f1 ∷ f2 ∷ f3 ∷ rest) =
    record {
      id = of_be32 i0 i1 i2 i3;
      x = of_be16 x0 x1;
      y = of_be16 y0 y1;
      width = of_be16 w0 w1;
      height = of_be16 h0 h1;
      flags = of_be32 f0 f1 f2 f3;
    }
    ∷ screens_of rest
screens_of _ = []

unfoldable pub parse_extended_desktop_size : Bytes → Result (Option (List Screen × ℕ))
unfolding screens_of
parse_extended_desktop_size buf =
    if ltb (length buf) 4
    then ok none
    else refuse (ltb max_screens (byte_at buf 0))
        (too_long "screen list" (byte_at buf 0) max_screens)
      >> (if ltb (length buf) (4 + byte_at buf 0 * 16)
          then ok none
          else ok
              (some (screens_of (take (byte_at buf 0 * 16) (drop 4 buf)), 4 + byte_at buf 0 * 16)))
