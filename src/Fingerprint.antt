-- ===== src/Fingerprint.antt =====
-- lanscope/src/fingerprint: vendors and device types.
pub mod Oui
pub mod Engine
pub mod Rules
