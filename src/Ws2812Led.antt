-- ===== src/Ws2812Led.antt =====
-- modules/WS2812Led: an LED strip of segments with effects.
pub mod Colour
pub mod Segment
pub mod Gradient
pub mod Effects
pub mod Strip
mod Tests
