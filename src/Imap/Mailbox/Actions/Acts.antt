-- ===== src/Imap/Mailbox/Actions/Acts.antt =====
-- What a success of STORE, COPY and MOVE says about the calls of the API for the messages of the
-- set.
use xyecoc_mailbridge.Imap.Mailbox.Actions.{Mailbox}
