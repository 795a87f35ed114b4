-- ===== src/Smtpd.antt =====
-- internal/mhalesmtpd/smtpd.go: the SMTP server's session.
pub mod Syntax
pub mod Session
pub mod Data
pub mod Auth
pub mod Mail
pub mod Control
pub mod Serve
pub mod Invariant
pub mod Progress
pub mod Serves
