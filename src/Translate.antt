-- ===== src/Translate.antt =====
-- internal/translate: the transformations of requests and of embedding responses.
pub mod Body
pub mod Thinking
mod Tests
mod Samples
pub mod Batches
pub mod Estimate
pub mod Messages
