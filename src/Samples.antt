-- ===== src/Samples.antt =====
-- Concrete values of the parameters, for the tests.
pub mod Maps
pub mod Http
pub mod Urls
pub mod Limits
pub mod Routes
pub mod Regexes
pub mod Codecs
pub mod Configs
pub mod Requests
