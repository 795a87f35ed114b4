-- ===== src/Tests.antt =====
-- The theorems at concrete inputs.
mod Server
mod Backend
mod Submission
mod Letters
mod Reads
mod Wire
