-- ===== src/Timer.antt =====
-- The timing wheels of timer/: points in time, the wheels, and the flush of a bucket.
pub mod Time
pub mod Wheel
pub mod DelayQueue
mod Tests
