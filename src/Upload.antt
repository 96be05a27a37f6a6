-- ===== src/Upload.antt =====
-- lib/upload: hashing and manifests.
pub mod Sha256
pub mod Manifest
