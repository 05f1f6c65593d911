-- ===== src/Verifier.antt =====
-- skills/electron-ui-verifier/scripts/electron_verifier: the operations of the verifier
-- service and its risk authorizations.
pub mod Errors
pub mod Operations
pub mod Risk
pub mod Tests
