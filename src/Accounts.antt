-- ===== src/Accounts.antt =====
-- The guards of the sign-in endpoints: failed attempts (backend/src/services/login-attempts.ts),
-- the pause between verification mails (backend/src/services/verification-resend-cooldown.ts), and
-- the tokens of those mails (backend/src/services/email-verification-token.ts).
pub mod LoginAttempts
pub mod Cooldown
pub mod Verification
