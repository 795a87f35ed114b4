-- ===== src/Smtpd/Session.antt =====
-- The data of internal/mhalesmtpd/smtpd.go: `Server`, `session` and the variables of `serve`, the
-- replies, and the reads and writes. The connection is the list of what its reads will return;
-- what the server does is logged, newest first.
use xyecoc_mailbridge.Base.{
  Bool, true, false, not, ◌&&◌, Option, none, some, List, [], ◌∷◌, ◌++◌, Bytes, codes, is_some,
  if◌then◌else◌,
}
use xyecoc_mailbridge.Text.{Unicode, ℤ, trim_space, itoa, join}
use xyecoc_mailbridge.Smtpd.Syntax.{Mech, plain, login, cram_md5}

-- One read up to a line feed: a line with its line feed, a `net.Error` that is a timeout or not,
-- or another error such as `io.EOF`, each with its text.
pub data Read : Type 0 where
  line : Bytes → Read
  timed_out : Read
  net_failed other_failed : Bytes → Read

-- The error of an authentication: a timeout, or any other with its text.
pub data AuthError : Type 0 where
  timeout : AuthError
  message : Bytes → AuthError

-- The replies that `serve` writes, named by what they tell.
pub data Reply : Type 0 where
  banner bye closing ok sender_ok recipient_ok start_input ready_tls auth_ok : Reply
  starttls_first auth_first bad_from bad_size mail_first bad_to too_many unavailable : Reply
  mail_rcpt_first local_error unable not_implemented no_parameters tls_in_use : Reply
  handshake_failed already_authenticated auth_in_mail auth_argument auth_type : Reply
  auth_invalid unrecognized : Reply
  greets ok_id handler_reply auth_error prompt : Bytes → Reply
  size_exceeded : ℤ → Reply
  ehlo : Bytes → ℤ → Bool → List Bytes → Reply

pub data Event : Type 0 where
  wrote : Reply → Event
  -- A call of the authentication handler for a user, and its answer.
  checked : Mech → Bytes → Bool → Event
  -- A call of the mail handler, and its error.
  delivered : Bytes → List Bytes → Bytes → Option Bytes → Event

-- `Server`; a handler that is nil is `none`, and one that is not acts on the state `W` of the
-- program around the server. Nothing keeps the two limits from being negative.
pub record Server (W : Type 0) : Type 0 where
  pub hostname : Bytes
  pub appname : Bytes
  pub auth_handler : Option (W → Mech → Bytes → Bytes → Bytes → W × Bool × Option AuthError)
  pub auth_mechs : Mech → Option Bool
  pub auth_required : Bool
  pub handler : Option (W → Bytes → List Bytes → Bytes → W × Option Bytes)
  pub msg_id_handler : Option (W → Bytes → List Bytes → Bytes → W × Bytes × Option Bytes)
  pub handler_rcpt : Option (W → Bytes → Bytes → W × Bool)
  pub max_size : ℤ
  pub max_recipients : ℤ
  pub tls_config : Bool
  pub tls_required : Bool
  pub disable_reverse_dns : Bool
  pub x_client_allowed : List Bytes

-- What a TLS handshake over the pending reads gives: the reads that then follow.
pub data Handshake : Type 0 where
  established refused : List Read → Handshake

-- The network, the clock and the libraries. `discard` drops from the pending reads what the
-- reader had buffered; the clock's answers may depend on what happened before.
pub record Env : Type 0 where
  pub unicode : Unicode
  pub start_tls : List Read → Handshake
  pub discard : List Read → List Read
  pub date : List Event → Bytes
  pub challenge : List Event → Bytes
  pub lookup_host : Bytes → Option Bytes
  pub is_ip : Bytes → Bool
  pub encode64 : Bytes → Bytes
  pub decode64 : Bytes → Option Bytes

-- `session` and the variables of `serve`. The variable `buffer` is not kept: it is reset before
-- each use.
pub record Session (W : Type 0) : Type 0 where
  pub world : W
  pub input : List Read
  pub events : List Event
  pub remote_ip : Bytes
  pub remote_host : Bytes
  pub remote_name : Bytes
  pub x_client : Bytes
  pub x_client_addr : Bytes
  pub x_client_name : Bytes
  pub x_client_trust : Bool
  pub tls : Bool
  pub authenticated : Bool
  pub from : Bytes
  pub got_from : Bool
  pub to : List Bytes

pub data LineResult : Type 0 where
  got : Bytes → LineResult
  lost : AuthError → LineResult

-- `readLine`, as the authentication handlers call it.
unfoldable pub read_result : Read → LineResult
read_result (line l) = got (trim_space l)
read_result timed_out = lost timeout
read_result (net_failed e) = lost (message e)
read_result (other_failed e) = lost (message e)

unfoldable pub next_read : List Read → Read × List Read
next_read [] = (other_failed (codes "EOF"), [])
next_read (r ∷ rs) = (r, rs)

unfoldable pub auth_line : List Bytes → Bytes
unfolding join
auth_line [] = []
auth_line (m ∷ ms) = codes "250-AUTH " ++ (join (codes " ") (m ∷ ms) ++ codes "\r\n")

module _ {W : Type 0} where
  unfoldable pub log : Event → Session W → Session W
  log e s = record s { events = e ∷ s.events }

  -- `writef`.
  unfoldable pub write : Reply → Session W → Session W
  unfolding log
  write r s = log (wrote r) s

  -- What HELO, EHLO, RSET, STARTTLS and a message that was sent reset.
  unfoldable pub reset : Session W → Session W
  reset s = record s { from = []; got_from = false; to = [] }

  -- The prologue of MAIL, RCPT and DATA, in front of the rest `k` of the command.
  unfoldable pub permitted : Server W → (Session W → Session W) → Session W → Session W
  unfolding write
  permitted srv k s =
      if srv.tls_config && srv.tls_required && not s.tls
      then write starttls_first s
      else if is_some srv.auth_handler && srv.auth_required && not s.authenticated
      then write auth_first s
      else k s

  -- `authMechs`: LOGIN and PLAIN need TLS, unless the server's own map says otherwise.
  unfoldable pub default_mech : Mech → Session W → Bool
  default_mech plain s = s.tls
  default_mech login s = s.tls
  default_mech cram_md5 s = true

  unfoldable pub mech_allowed : Server W → Mech → Session W → Bool
  unfolding default_mech
  mech_allowed srv m s = elim (srv.auth_mechs m) [ none ↦ default_mech m s | some b ↦ b ]

  unfoldable pub read_line : Session W → Session W × LineResult
  unfolding read_result next_read
  read_line s = let (r, rest) = next_read s.input in (record s { input = rest }, read_result r)

  -- The host and application name as `"%s %s"` writes them.
  unfoldable pub server_name : Server W → Bytes
  server_name srv = srv.hostname ++ (b' ' ∷ srv.appname)

  -- `makeEHLOResponse`. Go lists the mechanisms in the order of a map, that is, in any.
  unfoldable pub ehlo_response : Server W → Bytes → ℤ → Bool → List Bytes → Bytes
  unfolding auth_line itoa
  ehlo_response srv name size starttls mechs =
      codes "250-"
      ++ (srv.hostname
          ++ (codes " greets "
              ++ (name
                  ++ (codes "\r\n250-SIZE "
                      ++ (itoa size
                          ++ (codes "\r\n"
                              ++ ((if starttls then codes "250-STARTTLS\r\n" else [])
                                  ++ (auth_line mechs ++ codes "250 ENHANCEDSTATUSCODES"))))))))

  -- The text of a reply, without the line end that `writef` adds.
  unfoldable pub reply_text : Server W → Reply → Bytes
  unfolding server_name ehlo_response itoa
  reply_text srv banner = codes "220 " ++ (server_name srv ++ codes " ESMTP Service ready")
  reply_text srv bye =
      codes "221 2.0.0 " ++ (server_name srv ++ codes " ESMTP Service closing transmission channel")
  reply_text srv closing =
      codes "421 4.4.2 "
      ++ (server_name srv
          ++ codes " ESMTP Service closing transmission channel after timeout exceeded")
  reply_text srv ok = codes "250 2.0.0 Ok"
  reply_text srv sender_ok = codes "250 2.1.0 Ok"
  reply_text srv recipient_ok = codes "250 2.1.5 Ok"
  reply_text srv start_input = codes "354 Start mail input; end with <CR><LF>.<CR><LF>"
  reply_text srv ready_tls = codes "220 2.0.0 Ready to start TLS"
  reply_text srv auth_ok = codes "235 2.7.0 Authentication successful"
  reply_text srv starttls_first = codes "530 5.7.0 Must issue a STARTTLS command first"
  reply_text srv auth_first = codes "530 5.7.0 Authentication required"
  reply_text srv bad_from =
      codes "501 5.5.4 Syntax error in parameters or arguments (invalid FROM parameter)"
  reply_text srv bad_size =
      codes "501 5.5.4 Syntax error in parameters or arguments (invalid SIZE parameter)"
  reply_text srv mail_first = codes "503 5.5.1 Bad sequence of commands (MAIL required before RCPT)"
  reply_text srv bad_to =
      codes "501 5.5.4 Syntax error in parameters or arguments (invalid TO parameter)"
  reply_text srv too_many = codes "452 4.5.3 Too many recipients"
  reply_text srv unavailable = codes "550 5.1.0 Requested action not taken: mailbox unavailable"
  reply_text srv mail_rcpt_first =
      codes "503 5.5.1 Bad sequence of commands (MAIL & RCPT required before DATA)"
  reply_text srv local_error = codes "451 4.3.0 Requested action aborted: local error in processing"
  reply_text srv unable = codes "451 4.3.5 Unable to process mail"
  reply_text srv not_implemented = codes "502 5.5.1 Command not implemented"
  reply_text srv no_parameters = codes "501 5.5.2 Syntax error (no parameters allowed)"
  reply_text srv tls_in_use = codes "503 5.5.1 Bad sequence of commands (TLS already in use)"
  reply_text srv handshake_failed = codes "403 4.7.0 TLS handshake failed"
  reply_text srv already_authenticated =
      codes "503 5.5.1 Bad sequence of commands (already authenticated for this session)"
  reply_text srv auth_in_mail =
      codes "503 5.5.1 Bad sequence of commands (AUTH not permitted during mail transaction)"
  reply_text srv auth_argument = codes "501 5.5.4 Malformed AUTH input (argument required)"
  reply_text srv auth_type = codes "504 5.5.4 Unrecognized authentication type"
  reply_text srv auth_invalid = codes "535 5.7.8 Authentication credentials invalid"
  reply_text srv unrecognized = codes "500 5.5.2 Syntax error, command unrecognized"
  reply_text srv (greets name) = codes "250 " ++ (srv.hostname ++ (codes " greets " ++ name))
  reply_text srv (ok_id id) = codes "250 2.0.0 Ok " ++ id
  reply_text srv (handler_reply t) = t
  reply_text srv (auth_error t) = t
  reply_text srv (prompt t) = codes "334 " ++ t
  reply_text srv (size_exceeded limit) =
      codes "552 5.3.4 Requested mail action aborted: exceeded storage allocation ("
      ++ (itoa limit ++ codes ")")
  reply_text srv (ehlo name size starttls mechs) = ehlo_response srv name size starttls mechs
