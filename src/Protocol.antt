-- ===== src/Protocol.antt =====
-- compiler/protocol/src/lib.rs: the manifests of protocol features.
pub mod Manifest
pub mod Targets
pub mod Requirements
mod Tests
