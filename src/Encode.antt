-- ===== src/Encode.antt =====
-- crates/alloyvnc-encode: the picture, what a frame changed of it, and encoders and decoders.
pub mod Framebuffer
pub mod Blocks
pub mod Convert
pub mod Cursor
pub mod Compare
pub mod Hextile
pub mod Decode
pub mod Lengths
mod Tests
