-- ===== src/Tee.antt =====
-- src/confidential_computing: the trusted execution environments and the service that judges what
-- they attest. The clock is a parameter: `now` is the second that a call reads.
pub mod Common
pub mod Sgx
pub mod TrustZone
pub mod Service
mod Tests
