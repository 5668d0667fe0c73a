-- ===== src/Collaboration.antt =====
-- Collaboration on a project (backend/src/services/collaboration): roles and permissions, changes
-- of the membership under concurrency, invitations, and deletion.
pub mod Permissions
pub mod Membership
pub mod Invitations
pub mod Reinvitations
