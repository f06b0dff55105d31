-- ===== src/Artifacts.antt =====
-- Artifacts: src/db/artifactRepo.ts and src/lib/artifact-uri.ts.
pub mod Uri
pub mod Insertion
pub mod Saving
