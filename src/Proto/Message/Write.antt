-- ===== src/Proto/Message/Write.antt =====
-- The client message writers of crates/alloyvnc-proto/src/msg.rs. Each gives what it appends.
use alloyvnc.Base.{ℕ, ◌-◌, ◌%◌, Bool, List, [], ◌∷◌, ◌++◌, length}
use alloyvnc.Base.Words.{I32, bits_i32, u8_mod, u16_mod, u32_mod}
use alloyvnc.Proto.Wire.{Bytes, be16, be32, of_bool}
use alloyvnc.Proto.Text.{Text, string_to_latin1}
use alloyvnc.Proto.PixelFormat
use alloyvnc.Proto.PixelFormat.{PixelFormat}
use alloyvnc.Proto.ClientType

unfoldable pub write_set_pixel_format : PixelFormat → Bytes
write_set_pixel_format pf = ClientType.set_pixel_format ∷ 0 ∷ 0 ∷ 0 ∷ PixelFormat.write pf

unfoldable pub i32_list : List I32 → Bytes
i32_list [] = []
i32_list (e ∷ es) = be32 (bits_i32 e) ++ i32_list es

unfoldable pub write_set_encodings : List I32 → Bytes
write_set_encodings encodings =
    ClientType.set_encodings ∷ 0 ∷ (be16 (length encodings % u16_mod) ++ i32_list encodings)

unfoldable pub write_framebuffer_update_request : Bool → ℕ → ℕ → ℕ → ℕ → Bytes
write_framebuffer_update_request incremental x y w h =
    ClientType.framebuffer_update_request
    ∷ of_bool incremental
    ∷ (be16 x ++ (be16 y ++ (be16 w ++ be16 h)))

unfoldable pub write_key_event : Bool → ℕ → Bytes
write_key_event down keysym = ClientType.key_event ∷ of_bool down ∷ 0 ∷ 0 ∷ be32 keysym

unfoldable pub write_pointer_event : ℕ → ℕ → ℕ → Bytes
write_pointer_event buttons x y = ClientType.pointer_event ∷ buttons ∷ (be16 x ++ be16 y)

unfoldable pub write_client_cut_text : Text → Bytes
write_client_cut_text text =
    ClientType.client_cut_text
    ∷ 0
    ∷ 0
    ∷ 0
    ∷ (be32 (length (string_to_latin1 text) % u32_mod) ++ string_to_latin1 text)

unfoldable pub write_enable_continuous_updates : Bool → ℕ → ℕ → ℕ → ℕ → Bytes
write_enable_continuous_updates enable x y w h =
    ClientType.enable_continuous_updates
    ∷ of_bool enable
    ∷ (be16 x ++ (be16 y ++ (be16 w ++ be16 h)))

unfoldable pub write_client_fence : ℕ → Bytes → Bytes
write_client_fence flags payload =
    ClientType.client_fence ∷ 0 ∷ 0 ∷ 0 ∷ (be32 flags ++ (length payload % u8_mod) ∷ payload)

unfoldable pub write_qemu_key_event : Bool → ℕ → ℕ → Bytes
write_qemu_key_event down keysym keycode =
    ClientType.qemu ∷ 0 ∷ (be16 (of_bool down) ++ (be32 keysym ++ be32 keycode))

-- `(-(body.len() as i32)).to_be_bytes()`: the two's complement of the length.
unfoldable pub write_client_clipboard : Bytes → Bytes
write_client_clipboard body =
    ClientType.client_cut_text
    ∷ 0
    ∷ 0
    ∷ 0
    ∷ (be32 ((u32_mod - length body % u32_mod) % u32_mod) ++ body)
