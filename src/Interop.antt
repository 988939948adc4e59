-- ===== src/Interop.antt =====
-- src/interop: keys as JSON Web Keys, and DID documents that hold them.
pub mod Jwk
pub mod Did
mod Codec
mod Tests
