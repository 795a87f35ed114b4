-- ===== src/Imap.antt =====
-- internal/imapbackend: the IMAP side of the bridge.
pub mod Names
pub mod User
pub mod Mailbox
pub mod Letters
pub mod Login
