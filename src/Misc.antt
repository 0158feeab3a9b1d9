-- ===== src/Misc.antt =====
-- main/misc: containers that threads share.
pub mod DelayQueue
pub mod FixedDelayQueue
pub mod LinkedHashMap
