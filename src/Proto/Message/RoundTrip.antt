-- ===== src/Proto/Message/RoundTrip.antt =====
-- `parse_client` reads back what each client message writer writes
-- (crates/alloyvnc-proto/src/msg.rs).
use alloyvnc.Base.{
  ℕ, ◌-◌, ◌*◌, ◌%◌, ◌^◌, ◌≤◌, ◌<◌, ◌≡◌, refl, Bool, true, false, some, List, [], ◌∷◌, ◌++◌, map,
  length, All, arith, ltb, leb,
}
use alloyvnc.Base.Words.{I32, bits_i32, bits_i32-bits_i32, u32_mod}
use alloyvnc.Proto.Error.{ok}
use alloyvnc.Proto.Wire.{Bytes, be16_lem, be32_lem, of_bool, split_at, split_at-append}
use alloyvnc.Proto.Text.{Text, latin1_to_string, string_to_latin1, latin1_byte}
use alloyvnc.Proto.PixelFormat
use alloyvnc.Proto.PixelFormat.{PixelFormat}
use alloyvnc.Proto.PixelFormat.Laws.{InRange, parse-write, flag}
use alloyvnc.Proto.Clipboard.{Inflate, ClipboardMessage, parse_clipboard, max_cut_text, words32}
use alloyvnc.Proto.Cursor.{take, skip, u8, u16, u32}
use alloyvnc.Proto.Message.{
  ClientMessage, set_pixel_format, set_encodings, framebuffer_update_request, key_event,
  pointer_event, client_cut_text, extended_clipboard, enable_continuous_updates, client_fence,
  qemu_key_event, parse_set_pixel_format, parse_set_encodings, parse_framebuffer_update_request,
  parse_key_event, parse_pointer_event, parse_client_cut_text, parse_enable_continuous_updates,
  parse_client_fence, parse_qemu_key_event, parse_qemu, parse_kind, parse_client, max_encodings,
  max_fence_payload, clipboard_of,
}
use alloyvnc.Proto.Message.Write.{
  write_set_pixel_format, i32_list, write_set_encodings, write_framebuffer_update_request,
  write_key_event, write_pointer_event, write_client_cut_text, write_enable_continuous_updates,
  write_client_fence, write_qemu_key_event, write_client_clipboard,
}

-- A message, and the bytes that its writer writes for it, with every number in the range of its
-- field and every length within the limit that the parser sets.
pub data Written (inflate : Inflate) : ClientMessage → Bytes → Type 0 where
  pixel_format :
      (pf : PixelFormat)
      → InRange pf
      → Written inflate (set_pixel_format pf) (write_set_pixel_format pf)
  encodings :
      (es : List I32)
      → length es ≤ max_encodings
      → All (λ e. e < u32_mod) es
      → Written inflate (set_encodings es) (write_set_encodings es)
  update_request :
      (incremental : Bool) (x y w h : ℕ)
      → x < 2 ^ 16
      → y < 2 ^ 16
      → w < 2 ^ 16
      → h < 2 ^ 16
      → Written inflate
          (framebuffer_update_request incremental x y w h)
          (write_framebuffer_update_request incremental x y w h)
  key :
      (down : Bool) (keysym : ℕ)
      → keysym < 2 ^ 32
      → Written inflate (key_event down keysym) (write_key_event down keysym)
  pointer :
      (buttons x y : ℕ)
      → x < 2 ^ 16
      → y < 2 ^ 16
      → Written inflate (pointer_event buttons x y) (write_pointer_event buttons x y)
  cut_text :
      (text : Text)
      → length text ≤ max_cut_text
      → All (λ c. c < 256) text
      → Written inflate (client_cut_text text) (write_client_cut_text text)
  continuous :
      (enable : Bool) (x y w h : ℕ)
      → x < 2 ^ 16
      → y < 2 ^ 16
      → w < 2 ^ 16
      → h < 2 ^ 16
      → Written inflate
          (enable_continuous_updates enable x y w h)
          (write_enable_continuous_updates enable x y w h)
  fence :
      (flags : ℕ) (payload : Bytes)
      → flags < 2 ^ 32
      → length payload ≤ max_fence_payload
      → Written inflate (client_fence flags payload) (write_client_fence flags payload)
  qemu_key :
      (down : Bool) (keysym keycode : ℕ)
      → keysym < 2 ^ 32
      → keycode < 2 ^ 32
      → Written inflate
          (qemu_key_event down keysym keycode)
          (write_qemu_key_event down keysym keycode)
  -- a clipboard body that reads as `m`
  clip :
      (body : Bytes) (m : ClipboardMessage)
      → length body ≤ max_cut_text
      → parse_clipboard inflate body ≡ ok m
      → Written inflate (extended_clipboard m) (write_client_clipboard body)

abbrev Reads : Inflate → Bytes → ClientMessage → Bytes → Type 0
Reads inflate bytes m rest = parse_client inflate (bytes ++ rest) ≡ ok (some (m, length bytes))

of_bool-lt : (b : Bool) → of_bool b < 2 ^ 16
of_bool-lt true = omega arith
of_bool-lt false = omega arith

length-i32_list : (es : List I32) → length (i32_list es) ≡ length es * 4
unfolding i32_list
length-i32_list [] = omega arith
length-i32_list (e ∷ es) = omega (arith, length-i32_list es)

words32-i32_list :
    (es : List I32) → All (λ e. e < u32_mod) es → map bits_i32 (words32 (i32_list es)) ≡ es
unfolding i32_list words32
words32-i32_list [] h = refl
words32-i32_list (e ∷ es) h =
    rw (be32_lem (bits_i32 e) (omega arith), bits_i32-bits_i32 e h.0, words32-i32_list es h.1)

string_to_latin1-latin1 : (text : Text) → All (λ c. c < 256) text → string_to_latin1 text ≡ text
unfolding string_to_latin1
string_to_latin1-latin1 [] h = refl
string_to_latin1-latin1 (c ∷ text) h =
    let e : latin1_byte c ≡ c = ground arith in rw (e, string_to_latin1-latin1 text h.1)

clipboard_body_pos :
    (inflate : Inflate) (body : Bytes) (m : ClipboardMessage)
    → parse_clipboard inflate body ≡ ok m
    → 0 < length body
unfolding parse_clipboard
clipboard_body_pos inflate [] m h = cc
clipboard_body_pos inflate (b ∷ body) m h = omega arith

module _ (inflate : Inflate) (rest : Bytes) where
  key-Reads :
      (down : Bool) (keysym : ℕ)
      → keysym < 2 ^ 32
      → Reads inflate (write_key_event down keysym) (key_event down keysym) rest
  unfolding parse_client parse_kind parse_key_event u8 u32 skip write_key_event
  key-Reads down keysym h = rw (flag down, be32_lem keysym h)

  qemu_key-Reads :
      (down : Bool) (keysym keycode : ℕ)
      → keysym < 2 ^ 32
      → keycode < 2 ^ 32
      → Reads inflate
          (write_qemu_key_event down keysym keycode)
          (qemu_key_event down keysym keycode)
          rest
  unfolding parse_client parse_kind parse_qemu parse_qemu_key_event u8 u16 u32 write_qemu_key_event
  qemu_key-Reads down keysym keycode h k =
      rw (
        be16_lem (of_bool down) (of_bool-lt down),
        flag down,
        be32_lem keysym h,
        be32_lem keycode k,
      )

  pointer-Reads :
      (buttons x y : ℕ)
      → x < 2 ^ 16
      → y < 2 ^ 16
      → Reads inflate (write_pointer_event buttons x y) (pointer_event buttons x y) rest
  unfolding parse_client parse_kind parse_pointer_event u8 u16 write_pointer_event
  pointer-Reads buttons x y h k = rw (be16_lem x h, be16_lem y k)

  update_request-Reads :
      (incremental : Bool) (x y w h : ℕ)
      → x < 2 ^ 16
      → y < 2 ^ 16
      → w < 2 ^ 16
      → h < 2 ^ 16
      → Reads inflate
          (write_framebuffer_update_request incremental x y w h)
          (framebuffer_update_request incremental x y w h)
          rest
  unfolding parse_client parse_kind parse_framebuffer_update_request u8 u16
      write_framebuffer_update_request
  update_request-Reads incremental x y w h a b c d =
      rw (flag incremental, be16_lem x a, be16_lem y b, be16_lem w c, be16_lem h d)

  continuous-Reads :
      (enable : Bool) (x y w h : ℕ)
      → x < 2 ^ 16
      → y < 2 ^ 16
      → w < 2 ^ 16
      → h < 2 ^ 16
      → Reads inflate
          (write_enable_continuous_updates enable x y w h)
          (enable_continuous_updates enable x y w h)
          rest
  unfolding parse_client parse_kind parse_enable_continuous_updates u8 u16
      write_enable_continuous_updates
  continuous-Reads enable x y w h a b c d =
      rw (flag enable, be16_lem x a, be16_lem y b, be16_lem w c, be16_lem h d)

  pixel_format-Reads :
      (pf : PixelFormat)
      → InRange pf
      → Reads inflate (write_set_pixel_format pf) (set_pixel_format pf) rest
  unfolding parse_client parse_kind parse_set_pixel_format u8 skip write_set_pixel_format
      PixelFormat.write
  pixel_format-Reads pf r = rw (parse-write pf [] r).0

  encodings-Reads :
      (es : List I32)
      → length es ≤ max_encodings
      → All (λ e. e < u32_mod) es
      → Reads inflate (write_set_encodings es) (set_encodings es) rest
  unfolding parse_client parse_kind parse_set_encodings u8 u16 skip write_set_encodings
  encodings-Reads es le h =
      let small : length es % 2 ^ 16 ≡ length es = omega arith in
      let within : ltb max_encodings (length es) ≡ false = ground arith in
      let whole : split_at (length es * 4) (i32_list es ++ rest) ≡ some (i32_list es, rest) =
        rw (← length-i32_list es) (split_at-append (i32_list es) rest) in
      rw (small, be16_lem (length es) (omega arith), within, whole, words32-i32_list es h)
        (ground (arith, length-i32_list es))

  fence-Reads :
      (flags : ℕ) (payload : Bytes)
      → flags < 2 ^ 32
      → length payload ≤ max_fence_payload
      → Reads inflate (write_client_fence flags payload) (client_fence flags payload) rest
  unfolding parse_client parse_kind parse_client_fence u8 u32 skip take write_client_fence
  fence-Reads flags payload h le =
      let small : length payload % 2 ^ 8 ≡ length payload = omega arith in
      let within : ltb max_fence_payload (length payload) ≡ false = ground arith in
      rw (be32_lem flags h, small, within, split_at-append payload rest) (ground arith)

  cut_text-Reads :
      (text : Text)
      → length text ≤ max_cut_text
      → All (λ c. c < 256) text
      → Reads inflate (write_client_cut_text text) (client_cut_text text) rest
  unfolding parse_client parse_kind parse_client_cut_text u8 u32 skip take write_client_cut_text
      latin1_to_string
  cut_text-Reads text le h =
      let small : length text % 2 ^ 32 ≡ length text = omega arith in
      let plain : leb (2 ^ 31) (length text) ≡ false = ground arith in
      let within : ltb max_cut_text (length text) ≡ false = ground arith in
      rw
        (
          string_to_latin1-latin1 text h,
          small,
          be32_lem (length text) (omega arith),
          plain,
          within,
          split_at-append text rest,
        )
        (ground arith)

  clip-Reads :
      (body : Bytes) (m : ClipboardMessage)
      → length body ≤ max_cut_text
      → parse_clipboard inflate body ≡ ok m
      → Reads inflate (write_client_clipboard body) (extended_clipboard m) rest
  unfolding parse_client parse_kind parse_client_cut_text u8 u32 skip take write_client_clipboard
      clipboard_of
  clip-Reads body m le h =
      let pos = clipboard_body_pos inflate body m h in
      let len : (u32_mod - length body % u32_mod) % u32_mod ≡ u32_mod - length body = omega arith in
      let minus : leb (2 ^ 31) (u32_mod - length body) ≡ true = ground arith in
      let back : u32_mod - (u32_mod - length body) ≡ length body = omega arith in
      let within : ltb max_cut_text (length body) ≡ false = ground arith in
      rw
        (
          len,
          be32_lem (u32_mod - length body) (omega arith),
          minus,
          back,
          within,
          split_at-append body rest,
          h,
        )
        (ground arith)

-- Every message that a writer of the other side writes, with its numbers in range and its lengths
-- within the parser's limits, is read back as it was, using up exactly its own bytes, whatever bytes
-- of further messages follow.
pub parse_client-write :
    (inflate : Inflate) (rest : Bytes) {m : ClientMessage} {bytes : Bytes}
    → Written inflate m bytes
    → parse_client inflate (bytes ++ rest) ≡ ok (some (m, length bytes))
parse_client-write inflate rest (pixel_format pf r) = pixel_format-Reads inflate rest pf r
parse_client-write inflate rest (encodings es le h) = encodings-Reads inflate rest es le h
parse_client-write inflate rest (update_request i x y w h a b c d) =
    update_request-Reads inflate rest i x y w h a b c d
parse_client-write inflate rest (key down keysym h) = key-Reads inflate rest down keysym h
parse_client-write inflate rest (pointer buttons x y h k) =
    pointer-Reads inflate rest buttons x y h k
parse_client-write inflate rest (cut_text text le h) = cut_text-Reads inflate rest text le h
parse_client-write inflate rest (continuous e x y w h a b c d) =
    continuous-Reads inflate rest e x y w h a b c d
parse_client-write inflate rest (fence flags payload h le) =
    fence-Reads inflate rest flags payload h le
parse_client-write inflate rest (qemu_key down keysym keycode h k) =
    qemu_key-Reads inflate rest down keysym keycode h k
parse_client-write inflate rest (clip body m le h) = clip-Reads inflate rest body m le h
