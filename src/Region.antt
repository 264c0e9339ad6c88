-- ===== src/Region.antt =====
-- crates/alloyvnc-region: rectangles and y-x banded regions.
pub mod Rect
pub mod Spans
pub mod Bands
mod Tests
