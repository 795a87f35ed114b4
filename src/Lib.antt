-- ===== src/Lib.antt =====
-- Verification of the mail bridge: an SMTP submission server and an IMAP server in front of the
-- HTTP API of a web mail service.
--
-- The program's parts, and the files that model them:
--
-- * internal/loginlimit/loginlimit.go counts failed logins per IP for both servers. LoginLimit has
--   the maps and one function per method; LoginLimit/Counts has a specification without maps and
--   the refinement, LoginLimit/Blocking what it means for a client.
-- * internal/mhalesmtpd/smtpd.go is the SMTP server. Smtpd/Syntax has the verbs and the regular
--   expressions, Smtpd/Session the data of a connection with its reads and writes, Smtpd/Data
--   `readData`, Smtpd/Auth the mechanisms of AUTH, Smtpd/Mail and Smtpd/Control the cases of the
--   switch, Smtpd/Serve the loop. A connection is the list of what its reads return, and what the
--   server does is a list of events. Smtpd/Invariant, Smtpd/Progress and Smtpd/Serves prove that
--   `serve` returns and that its calls of the mail handler are lawful; Smtpd/Data/Dots and
--   Smtpd/Syntax/Paths are about the data and the addresses.
-- * internal/identity/email.go makes addresses of logins: Identity.
-- * internal/remote/types.go and parse.go judge and decode the answers of the API: Remote, and
--   Remote/View for the letters. internal/remote/client.go calls the API: Remote/Client; with
--   attachment_download.go it makes the URLs of attachments, Remote/Urls, and loads them,
--   Remote/Attached. internal/remote/redact.go and redact_url.go take secrets out of what is
--   logged: Remote/Redact, with its law in Remote/Redact/Alike, and `redact_url_for_log` in
--   Remote/Client.
-- * internal/protocollog/writer.go logs the lines of a connection: Wire, with its laws in
--   Wire/Lines, Wire/Chunks and Wire/Secrets.
-- * internal/config/config.go reads the environment: Config.
-- * internal/smtpbridge/submit.go plugs the API into the SMTP server: Submit has the two handlers,
--   with the login limit and the tokens of the clients, and the server's configuration;
--   Submit/Handlers has their laws. internal/smtpbridge/parse_outbound.go reads what a client
--   submits: Outgoing has the names of files and the ID of the mail that is answered,
--   Outgoing/Walk the walk over the parts, Outgoing/Escape, Outgoing/Basename and
--   Outgoing/Attached the laws. Login has what the logins of both servers share, and Imap/Login
--   the login of internal/imapbackend/backend.go.
-- * internal/imapbackend/names.go maps mailboxes to names and back: Imap/Names, with its laws in
--   Imap/Names/RoundTrip, Imap/Names/Fresh and Imap/Names/Sanitized.
-- * internal/imapbackend/user.go keeps an index of names and a cache of lists for a user: Imap/User
--   has the index and LIST, Imap/User/Resolve the lookup, Imap/User/Change CREATE, DELETE and
--   RENAME; Imap/User/Listed and Imap/User/Evicted have the laws.
-- * internal/imapbackend/rfc822.go builds letters: Imap/Letters, with its laws in
--   Imap/Letters/EmptyLine, Imap/Letters/Headers and Imap/Letters/Lines, and what becomes of a reply
--   in Imap/Letters/Reply.
-- * internal/imapbackend/mailbox.go lists and changes the messages of a mailbox: Imap/Mailbox has
--   the numbers, the flags and `loadSummaries`, Imap/Mailbox/Literals the letters that are read,
--   Imap/Mailbox/Fetch the items of FETCH, with msg.go, Imap/Mailbox/Reads FETCH, SEARCH and
--   APPEND, Imap/Mailbox/Actions STORE, COPY, MOVE, EXPUNGE and STATUS; Imap/Mailbox/Numbers,
--   Imap/Mailbox/Cache, Imap/Mailbox/Reads/Listed, Imap/Mailbox/Reads/Appended,
--   Imap/Mailbox/Actions/Acts and Imap/Mailbox/Actions/Evicts have the laws, and
--   Imap/Mailbox/Actions/Requests the calls of the API that STORE, COPY and MOVE are to make, which
--   Imap/Mailbox/Actions/Effects adds up.
--
-- Base has what all of them share, Text what the program uses of Go's strings and strconv, Tests
-- the theorems at concrete inputs.
--
-- Numbers and text. A string or byte slice is a list of natural numbers. `int` is ℕ where the
-- source keeps it from being negative and ℤ for the IDs of the API and the limits of the SMTP
-- server; `uint32` wraps around. Times are in nanoseconds.
--
-- Parameters. The network and net/http, TLS, base64, the clock, the tables of Unicode outside
-- ASCII, encoding/json, net/url's escapes, mime and multipart, go-message, go-imap's backendutil
-- and `imap.SeqSet`, time.Parse, and the order in which Go ranges over a map are parameters of the
-- definitions that use them. Imap/Mailbox and Submit take the API client's `Do` as a parameter,
-- which Remote/Client implements over HTTP; in Submit a call has the limit of time of its context,
-- which the IMAP login does not set. Laws of parameters are named where a theorem needs
-- one: `Smtpd.Progress.Shrinks` says that a TLS handshake and a discard add no reads, and
-- `Imap.Login.login-auth_handler` asks that a call which ends within its limit of time answers as
-- without the limit.
--
-- Bounds and fuel. `rounds` has one round for each read that is left and one more, and each round
-- that goes on consumes a read. The loops that look for a free name have three rounds more than
-- there are names in use, and from the third on the names tried differ. `decimal` has fuel above
-- its argument. The loop of `loadSummaries` has the source's own limit of 500 pages.
-- The loop of `Write` and that of `writeMIMEBase64Lines` have the length of the text as fuel, of
-- which each round takes a byte at least.
--
-- Not modelled: the accept loop, Close and Shutdown of the SMTP server and its loading of
-- certificates; the trace log of internal/remote/client.go; mutexes, as each command is one step;
-- internal/logx and cmd/mailbridge, which are I/O and start-up.
pub mod Base
pub mod Config
pub mod LoginLimit
pub mod Text
pub mod Smtpd
pub mod Identity
pub mod Remote
pub mod Imap
pub mod Login
pub mod Outgoing
pub mod Submit
pub mod Wire
pub mod Tests
