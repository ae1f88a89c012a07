-- ===== src/Attribute.antt =====
-- streaming/attribute.py, the pure attribution core, by its parts: the removal of re-sends, the one row
-- and the candidate set of a conversion, the last-touch leaf and the hot rule over one household, the
-- streaming pass with its watermark, and the oracle that never evicts.
pub mod Dedup
pub mod Candidates
pub mod LastTouch
pub mod Streaming
pub mod Oracle
