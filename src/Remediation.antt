-- ===== src/Remediation.antt =====
-- internal/remediation: the stores of action attempts and of verifications.
pub mod Keys
pub mod Attempt
pub mod Verification
