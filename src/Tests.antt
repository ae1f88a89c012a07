-- ===== src/Tests.antt =====
-- Runs of the modelled code at concrete inputs, and each theorem with a condition applied to one.
pub mod Data
pub mod Attribution
pub mod Lookup
pub mod Services
pub mod Stream
pub mod Serving
pub mod Engine
