-- ===== src/Trail.antt =====
-- The trails of players (site/src/canvas-map/trail-model.js).
pub mod Point
pub mod Steps
pub mod Model
pub mod Time
pub mod Live
pub mod Marks
mod Tests
