-- ===== src/Lib.antt =====
-- Abir-Guard is a Rust library for the keys of autonomous agents: it splits secrets, derives and
-- caches keys, logs and judges what happens to them, binds keys to owners in registries, and runs
-- sessions in which several parties agree on a digest. These files model its parts and prove what
-- each of them promises to the others.
--
-- The parts, each with its files and its source:
--   Shamir            src/shamir.rs: split, reconstruct and gf_inv over GF(251), and shares as texts.
--   Kdf               src/kdf.rs: derive_key and derive_key_with_salt.
--   KeyCache          src/performance/key_cache.rs: DerivedKeyCache, which calls Kdf on a miss.
--   Audit/Log         src/audit/audit_log.rs: AuditLog, a chain of hashed entries.
--   Audit/Compliance  src/audit/compliance.rs: ComplianceReport, which reads the entries of the log.
--   Blockchain/Anchors  src/blockchain/key_anchor.rs: AnchorRegistry.
--   Blockchain/Contract src/blockchain/smart_contract.rs: the contract, which owns an AnchorRegistry.
--   Blockchain/Dpki     src/blockchain/dpki.rs: DecentralizedPki, which owns one too.
--   Mpc               src/confidential_computing/mpc/mod.rs: MpcPolicy and MpcSession.
--   Revocation        src/revocation.rs: RevocationList and its signature.
--   Rotation          src/rotation.rs: KeyMetadata and KeyRotationManager.
--   Batch             src/performance/batch_ops.rs: batch_verify and batch_sign.
--   AdvancedSharing   src/advanced_secret_sharing.rs: MACs on shares, commitments, refreshing and
--                     re-sharing.
--   Tee/Common        src/confidential_computing/tee_common.rs: types of the environments.
--   Tee/Sgx           src/confidential_computing/sgx/mod.rs: the enclave, with Tee/Sgx/Storage
--                     (sealed_storage.rs), Tee/Sgx/Verifier (quote_verifier.rs) and Tee/Sgx/Provider
--                     (attestation.rs).
--   Tee/TrustZone     src/confidential_computing/trustzone/mod.rs: the session, with
--                     Tee/TrustZone/Report (attestation.rs) and Tee/TrustZone/Interface
--                     (interface.rs).
--   Tee/Service       src/confidential_computing/attestation_service/mod.rs: AttestationService, which
--                     calls the quote verifier and the TrustZone verifier.
--   Qkd               src/qkd/mod.rs: the BB84 simulation and its entropy source.
--   QuantumKernel     src/quantum_kernel.rs: HybridEncryptor and Vault, with the mutex of the vault, and
--                     QuantumKernel/Kem: encapsulation and decapsulation of ML-KEM.
--   PersistentVault   src/persistent_vault.rs: the vault on disk, which calls QuantumKernel and Kdf.
--   MlDsa             src/ml_dsa.rs: sign and verify, which PersistentVault/Signing calls, and
--                     MlDsa/Json: key pairs as JSON.
--   Interop           src/interop: Interop/Jwk (jwk.rs) and Interop/Did (did.rs): JSON Web Keys, and the
--                     DID documents that hold them.
--   McpGateway        src/mcp_gateway.rs: the JSON-RPC server, which owns a Vault.
--   Cli               src/main.rs: the commands, over the files of keys that one run leaves to the next;
--                     they call PersistentVault, Shamir and McpGateway.
--   Base              what they share: lists and bytes, maps, results, methods with a state, texts in
--                     order, hash collisions, the values of JSON.
--
-- How the code is written here. A struct is a record and an enum a data type with the source's
-- names in this language's spelling. A method on `&mut self` takes the state and returns the new
-- one; where it can fail after it has changed the state, as in Mpc, it is an Action, which returns
-- the state beside the result. `Result` is Base/Outcome. A panic is `none` of Option (Shamir, Kdf,
-- KeyCache, AdvancedSharing, Qkd, QuantumKernel, PersistentVault, McpGateway, Cli). A String and a byte slice are
-- lists of bytes. A HashMap is an association list with one entry for each key, and a HashSet is
-- such a map to the unit type; no theorem rests on an order of iteration except where the source
-- sorts. A function that models a loop is named after the function it stands in.
--
-- Integers are natural numbers. In Shamir products and sums of `u16` wrap at 2 ^ 16 and casts to
-- `u8` at 2 ^ 8, and in Rotation the counters at 2 ^ 64, as in the release profile; counters that
-- saturate in the source saturate at 2 ^ 64 - 1; lengths of lists in memory are taken to fit in
-- `usize`.
--
-- Fuel: the `while` loop of gf_inv gets 250 rounds, and its exponent is 249 and is halved in each
-- round. The `while` loop of ProactiveRefresher::mask gets as many rounds as the share has bytes,
-- which ends it where digests are not empty. A number in a message is written with up to 20 digits,
-- as many as a `u64` has. All other loops are structural.
--
-- Parameters, for code that is not in the repository: `sha256` (crate sha2), `hmac` (crate hmac),
-- `argon2` (crate argon2 with the fixed parameters of kdf.rs, `none` where it reports an error),
-- `fill` (getrandom: byte `pos` of the buffer of call number `call`), `exceeds` (the comparison of
-- two counts' ratio with a bound, on f64; Qkd takes its operations on f64 as a record, since the
-- language has no floats) and `lossy` (String::from_utf8_lossy). QuantumKernel takes base64, HKDF,
-- AES-256-GCM, the ML-KEM crate and `String::from_utf8` as records, and a call what it draws at
-- random and the time it takes; PersistentVault takes the file, Argon2id and serde_json too,
-- Interop base64url and the texts of serde_json, Shamir/Texts base64, and MlDsa the ML-DSA crate.
-- Batch takes the calls behind src/ml_dsa.rs as `verify` and `sign`. Cli takes the characters of a
-- text, which of them are letters and digits, which lines are blank, SHA3-512, and serde_json on
-- requests, answers and values. The clock is the timestamp that a call reads. Where a theorem needs
-- something of them, the length of a digest or that a cipher opens what it seals, it is a
-- hypothesis. Collision resistance is never assumed: the theorems return the collision.
--
-- Not modelled: the enclave's foreign functions (sgx/enclave_interface.rs), the noise of
-- differential_privacy.rs, which is on floats, the buffers of zero_copy.rs and entropy_inject.rs, which
-- are memory handling, the parsing of arguments (main.rs), and the ports to other languages; inside
-- the parts above the `len` and `is_empty` methods, serde and Display derivations, and the tests.
pub mod Base
pub mod Shamir
pub mod Audit
pub mod Blockchain
pub mod Mpc
pub mod Kdf
pub mod KeyCache
pub mod Revocation
pub mod Rotation
pub mod Batch
pub mod AdvancedSharing
pub mod Tee
pub mod Qkd
pub mod QuantumKernel
pub mod PersistentVault
pub mod MlDsa
pub mod Interop
pub mod McpGateway
pub mod Cli
