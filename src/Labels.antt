-- ===== src/Labels.antt =====
-- lib/labels: the distance of perceptual hashes, the preference jury and the job queue.
pub mod PerceptualHash
pub mod Preference
pub mod Registry
