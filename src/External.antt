-- ===== src/External.antt =====
-- The crates that the program calls: each is a record of the operations in use, with the documented
-- behaviour that the proofs rely on.
pub mod Http
pub mod Urls
pub mod Regexes
pub mod Maps
pub mod Limits
pub mod Routes
pub mod Codecs
