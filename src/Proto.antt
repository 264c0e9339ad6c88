-- ===== src/Proto.antt =====
-- crates/alloyvnc-proto: the RFB wire format, as bytes in and bytes out.
pub mod Error
pub mod Wire
pub mod Text
pub mod PixelFormat
pub mod Encoding
pub mod Cursor
pub mod Clipboard
pub mod ClientType
pub mod Message
pub mod Server
pub mod Handshake
mod Tests
