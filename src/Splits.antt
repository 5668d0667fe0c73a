-- ===== src/Splits.antt =====
-- The registries of a split project beside the chain (backend/src/services/splits/ and
-- backend/src/services/collaboration/project-deletion.ts): drafts, ownership, expiration, deletion.
pub mod Drafts
pub mod Ownership
pub mod Expiration
pub mod Deletion
