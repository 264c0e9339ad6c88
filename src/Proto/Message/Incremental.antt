-- ===== src/Proto/Message/Incremental.antt =====
-- `parse_client` is incremental: what it answers on the bytes that have arrived stays true when more
-- arrive.
use alloyvnc.Base.{
  ℕ, zero, suc, ◌≤◌, ◌<◌, ◌≡◌, refl, Option, none, some, [], ◌∷◌, ◌++◌, length, arith,
}
use alloyvnc.Proto.Error.{Error, Result, ok, err}
use alloyvnc.Proto.Wire.{Bytes}
use alloyvnc.Proto.Clipboard.{Inflate}
use alloyvnc.Proto.Cursor.{Outcome, done, more, fail, new, u8}
use alloyvnc.Proto.Cursor.Local.{Local, Keeps, local_rules, Local-bind, Local-u8, Local-pure}
use alloyvnc.Proto.Message.{
  ClientMessage, parse_set_pixel_format, parse_set_encodings, parse_framebuffer_update_request,
  parse_key_event, parse_pointer_event, parse_client_cut_text, parse_enable_continuous_updates,
  parse_client_fence, parse_screen, parse_screens, parse_set_desktop_size, parse_qemu_key_event,
  parse_qemu, parse_kind, answer, message, parse_client,
}

Local-parse_set_pixel_format : Local parse_set_pixel_format
unfolding parse_set_pixel_format
Local-parse_set_pixel_format = search local_rules depth 12

Local-parse_set_encodings : Local parse_set_encodings
unfolding parse_set_encodings
Local-parse_set_encodings = search local_rules depth 12

Local-parse_key_event : Local parse_key_event
unfolding parse_key_event
Local-parse_key_event = search local_rules depth 12

Local-parse_framebuffer_update_request : Local parse_framebuffer_update_request
unfolding parse_framebuffer_update_request
Local-parse_framebuffer_update_request = search local_rules depth 12

Local-parse_pointer_event : Local parse_pointer_event
unfolding parse_pointer_event
Local-parse_pointer_event = search local_rules depth 12

Local-parse_enable_continuous_updates : Local parse_enable_continuous_updates
unfolding parse_enable_continuous_updates
Local-parse_enable_continuous_updates = search local_rules depth 12

Local-parse_client_fence : Local parse_client_fence
unfolding parse_client_fence
Local-parse_client_fence = search local_rules depth 12

Local-parse_screen : Local parse_screen
unfolding parse_screen
Local-parse_screen = search local_rules depth 12

Local-parse_qemu_key_event : Local parse_qemu_key_event
unfolding parse_qemu_key_event
Local-parse_qemu_key_event = search local_rules depth 12

Local-parse_client_cut_text : (inflate : Inflate) → Local (parse_client_cut_text inflate)
unfolding parse_client_cut_text
Local-parse_client_cut_text inflate = search local_rules depth 12

Local-parse_screens : (n : ℕ) → Local (parse_screens n)
unfolding parse_screens
Local-parse_screens zero = Local-pure []
Local-parse_screens (suc n) = Local-bind parse_screen _ Local-parse_screen λ screen.
    Local-bind (parse_screens n) _ (Local-parse_screens n) λ screens. Local-pure (screen ∷ screens)

Local-parse_set_desktop_size : Local parse_set_desktop_size
unfolding parse_set_desktop_size
Local-parse_set_desktop_size = search (local_rules, Local-parse_screens) depth 14

Local-parse_qemu : Local parse_qemu
unfolding parse_qemu
Local-parse_qemu = search (local_rules, Local-parse_qemu_key_event) depth 12

Local-parse_kind : (inflate : Inflate) (kind : ℕ) → Local (parse_kind inflate kind)
unfolding parse_kind
Local-parse_kind inflate kind =
    search
      (
        local_rules, Local-parse_set_pixel_format, Local-parse_set_encodings,
        Local-parse_framebuffer_update_request, Local-parse_key_event, Local-parse_pointer_event,
        Local-parse_client_cut_text, Local-parse_enable_continuous_updates,
        Local-parse_client_fence, Local-parse_set_desktop_size, Local-parse_qemu,
      )
      depth 14

Local-message : (inflate : Inflate) → Local (message inflate)
unfolding message
Local-message inflate = Local-bind u8 _ Local-u8 (Local-parse_kind inflate)

-- What the longer buffer gives, from what the shorter one gave.
Answers :
    (buf : Bytes)
    → Result (Option (ClientMessage × ℕ))
    → Result (Option (ClientMessage × ℕ))
    → Type 0
Answers buf (ok (some (m, used))) later = (later ≡ ok (some (m, used))) × (used ≤ length buf)
Answers buf (ok none) later = Unit
Answers buf (err e) later = later ≡ err e

answer-Answers :
    (buf ext : Bytes) (o q : Outcome ClientMessage)
    → Keeps ext (new buf) o q
    → Answers buf (answer o) (answer q)
unfolding answer Answers
answer-Answers buf ext (done m c) q k = (rw (k.0), omega (arith, k.1))
answer-Answers buf ext more q k = tt
answer-Answers buf ext (fail e) q k = rw k

parse_client-Answers :
    (inflate : Inflate) (buf ext : Bytes)
    → Answers buf (parse_client inflate buf) (parse_client inflate (buf ++ ext))
unfolding parse_client
parse_client-Answers inflate buf ext =
    answer-Answers buf ext (message inflate (new buf)) (message inflate (new (buf ++ ext)))
      ((Local-message inflate).at (new buf) ext)

-- A message that was read whole is read the same, with the same length, whatever bytes arrive behind
-- it, and it is no longer than the buffer; and bytes that were refused stay refused, with the same
-- error.
pub parse_client-append :
    (inflate : Inflate) (buf ext : Bytes)
    → ((m : ClientMessage) (used : ℕ)
        → parse_client inflate buf ≡ ok (some (m, used))
        → (parse_client inflate (buf ++ ext) ≡ ok (some (m, used))) × (used ≤ length buf))
      × ((e : Error) → parse_client inflate buf ≡ err e → parse_client inflate (buf ++ ext) ≡ err e)
unfolding Answers
parse_client-append inflate buf ext = (
  λ m used h. rw h at (parse_client-Answers inflate buf ext),
  λ e h. rw h at (parse_client-Answers inflate buf ext),
)

cut :
    (buf : Bytes) (now later : Result (Option (ClientMessage × ℕ))) (m : ClientMessage) (used : ℕ)
    → Answers buf now later
    → later ≡ ok (some (m, used))
    → length buf < used
    → now ≡ ok none
unfolding Answers
cut buf (ok (some (m', used'))) later m used a h lt = ground arith
cut buf (ok none) later m used a h lt = refl
cut buf (err e) later m used a h lt = ground arith

-- Of a message, every proper prefix is incomplete: the parser asks for more bytes, and never
-- refuses it or takes it for another message.
pub parse_client_prefix :
    (inflate : Inflate) (front back : Bytes) (m : ClientMessage) (used : ℕ)
    → parse_client inflate (front ++ back) ≡ ok (some (m, used))
    → length front < used
    → parse_client inflate front ≡ ok none
parse_client_prefix inflate front back m used h lt =
    cut front (parse_client inflate front) (parse_client inflate (front ++ back)) m used
      (parse_client-Answers inflate front back) h lt
