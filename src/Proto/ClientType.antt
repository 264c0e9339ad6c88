-- ===== src/Proto/ClientType.antt =====
-- `client_type` of crates/alloyvnc-proto/src/msg.rs: the first byte of each client message.
use alloyvnc.Base.{ℕ}

abbrev pub set_pixel_format : ℕ
set_pixel_format = 0

abbrev pub set_encodings : ℕ
set_encodings = 2

abbrev pub framebuffer_update_request : ℕ
framebuffer_update_request = 3

abbrev pub key_event : ℕ
key_event = 4

abbrev pub pointer_event : ℕ
pointer_event = 5

abbrev pub client_cut_text : ℕ
client_cut_text = 6

abbrev pub enable_continuous_updates : ℕ
enable_continuous_updates = 150

abbrev pub client_fence : ℕ
client_fence = 248

abbrev pub set_desktop_size : ℕ
set_desktop_size = 251

abbrev pub qemu : ℕ
qemu = 255
