-- ===== src/Release.antt =====
-- scripts/release_manifest.py: the manifest of a release and the check of its image archive.
pub mod Verdict
pub mod Patterns
pub mod Manifest
pub mod Archive
pub mod Create
