-- ===== src/KobraErr.antt =====
-- launcher/internal/kobraerr/kobraerr.go: the error type that the HTTP surfaces return, the body
-- that a client reads, and the writer of the response. A JSON document is its map of fields.
pub mod Types
pub mod Build
pub mod Envelope
pub mod Laws
