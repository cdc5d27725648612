-- ===== src/StrictJson.antt =====
-- internal/strictjson: the lexical checks that precede the decoding of a JSON text.
pub mod Unicode
pub mod Scan
