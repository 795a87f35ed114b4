-- ===== src/Submit.antt =====
-- internal/smtpbridge/submit.go: the handlers that the SMTP server calls, and its configuration.
pub mod Handlers
use xyecoc_mailbridge.Base.{
  Bool, true, false, Option, none, some, List, [], ◌∷◌, Bytes, codes, is_empty, if◌then◌else◌,
  lookup, put, ℕ,
}
use xyecoc_mailbridge.Text.{Unicode, to_lower, trim_space, contains, join, pos}
use xyecoc_mailbridge.Identity.{expand_local_part, remote_auth_email}
use xyecoc_mailbridge.Remote.Client.{reply_confirm}
use xyecoc_mailbridge.LoginLimit.{Tracker, allowed, record_failure, record_success}
use xyecoc_mailbridge.Remote.{
  Json, Value, text, files, Request, request, Response, Answer, answered, unreachable, is_one,
  extract_token, mail_mutation_ok,
}
use xyecoc_mailbridge.Login.{limit_check, limit_failure, limit_success, authorization, token_of}
use xyecoc_mailbridge.Outgoing.{Mime, Outbound}
use xyecoc_mailbridge.Outgoing.Walk.{parse_outbound_mail}
use xyecoc_mailbridge.Smtpd.Syntax.{Mech, plain, login, cram_md5}
use xyecoc_mailbridge.Smtpd.Session.{Server, AuthError}

-- The API with the limit of time of a call in nanoseconds, where its context has one, and its token;
-- the clock, and the MIME libraries.
pub record Gateway (W : Type 0) : Type 0 where
  pub perform : Option ℕ → Bytes → Request → W → Answer × W
  pub now : W → ℕ
  pub json : Json
  pub unicode : Unicode
  pub mime : Mime

-- The limit of time that `authHandler` sets, 30 seconds.
abbrev pub auth_timeout : ℕ
auth_timeout = 30000000000

-- The limit of time that `mailHandler` sets, two minutes.
abbrev pub mail_timeout : ℕ
mail_timeout = 120000000000

-- The fields of the configuration that the handlers read.
pub record Config : Type 0 where
  pub default_mail_domain : Bytes
  pub remote_auth_email_local_part_only : Bool
  pub mail_compose_current_lang : Bytes

-- `Server`: the world, the login limit where there is one, and the token of each client.
pub record Bridge (W : Type 0) : Type 0 where
  pub world : W
  pub limit : Option Tracker
  pub tokens : List (Bytes × Bytes)

-- The addresses that are not blank, with their domain.
unfoldable pub recipients : List Bytes → Bytes → List Bytes
recipients [] domain = []
recipients (a ∷ rest) domain =
    let more = recipients rest domain in
    let t = trim_space a in if is_empty t then more else expand_local_part t domain ∷ more

-- `normalizeSMTPRecipients`.
unfoldable pub normalize_smtp_recipients : List Bytes → Bytes → Bytes
unfolding recipients
normalize_smtp_recipients rcpt domain = join (codes ",") (recipients rcpt domain)

module _ {W : Type 0} (g : Gateway W) (cfg : Config) where
  -- `Allowed`, where there is a limit.
  unfoldable pub may_try : Bytes → Bridge W → Bool × Bridge W
  unfolding limit_check
  may_try ip b =
      let (free, l) = limit_check (g.now b.world) ip b.limit in (free, record b { limit = l })

  -- What `authHandler` does with the answer of the API.
  unfoldable pub finish_login : Bytes → Bytes → Option Bytes → Bridge W → Bool × Bridge W
  unfolding limit_failure limit_success
  finish_login ip addr none b =
      (false, record b { limit = limit_failure (g.now b.world) ip b.limit })
  finish_login ip addr (some token) b =
      (true, record b { limit = limit_success ip b.limit; tokens = put addr token b.tokens })

  -- The call of the API in `authHandler`.
  unfoldable pub log_in : Bytes → Bytes → Bytes → Bytes → Bridge W → Bool × Bridge W
  unfolding authorization token_of finish_login
  log_in ip addr username password b =
      let address = expand_local_part (trim_space username) cfg.default_mail_domain in
      let email = remote_auth_email address cfg.remote_auth_email_local_part_only in
      let (a, w) = g.perform (some auth_timeout) [] (authorization email password) b.world in
      finish_login ip addr (token_of g.json a) (record b { world = w })

  -- `authHandler` for a client at `addr`, whose `ClientIP` is `ip`.
  unfoldable pub auth_handler : Bytes → Bytes → Bytes → Bytes → Bridge W → Bool × Bridge W
  unfolding may_try log_in
  auth_handler ip addr username password b =
      let (free, b') = may_try ip b in
      if free then log_in ip addr username password b' else (false, b')

  -- The call for a message: `message-new`, or `reply-confirm` for an answer to another mail.
  unfoldable pub submission : Outbound → List Bytes → Request
  unfolding normalize_smtp_recipients reply_confirm
  submission m to =
      if is_empty m.reply_mail_id
      then record (request (codes "mail") (codes "message-new") cfg.mail_compose_current_lang) {
        fields =
            (codes "subject", text m.subject)
            ∷ (codes "message", text m.html)
            ∷ (codes "users", text (normalize_smtp_recipients to cfg.default_mail_domain))
            ∷ (codes "attaches", files m.attaches)
            ∷ [];
      }
      else reply_confirm m.reply_mail_id m.html m.attaches cfg.mail_compose_current_lang

  -- The error for a message that the API refused.
  unfoldable pub rejection : Response → Bytes
  rejection r =
      if contains (to_lower g.unicode r.message) (codes "denied")
      then codes "554 5.7.1 policy rejection"
      else codes "554 5.5.0 send failed"

  -- The error for an answer of the API; `none` is a success.
  unfoldable pub verdict : Answer → Option Bytes
  unfolding rejection
  verdict (unreachable e) = some (codes "451 4.3.0 upstream error")
  verdict (answered r) = if mail_mutation_ok g.json g.unicode r then none else some (rejection r)

  unfoldable pub send : Bytes → Option Outbound → List Bytes → Bridge W → Option Bytes × Bridge W
  unfolding submission verdict
  send token none to b = (some (codes "451 4.3.0 bad message data"), b)
  send token (some m) to b =
      let (a, w) = g.perform (some mail_timeout) token (submission m to) b.world in
      (verdict a, record b { world = w })

  unfoldable pub send_as : Option Bytes → List Bytes → Bytes → Bridge W → Option Bytes × Bridge W
  unfolding send
  send_as none to letter b = (some (codes "530 5.7.0 Authentication required"), b)
  send_as (some token) to letter b = send token (parse_outbound_mail g.mime g.unicode letter) to b

  -- `mailHandler`.
  unfoldable pub mail_handler : Bytes → List Bytes → Bytes → Bridge W → Option Bytes × Bridge W
  unfolding send_as
  mail_handler addr to letter b = send_as (lookup addr b.tokens) to letter b

  -- The server that `ListenTCP` starts, for one client.
  unfoldable pub listen_tcp : Bytes → Bytes → Server (Bridge W)
  unfolding auth_handler mail_handler
  listen_tcp ip addr = record {
    hostname = codes "mailbridge";
    appname = codes "mailbridge";
    auth_handler = some (λ b mech username password shared.
        let (good, b') = auth_handler ip addr username password b in (b', good, none));
    auth_mechs = elim [ plain ↦ some true | login ↦ some true | cram_md5 ↦ some false ];
    auth_required = true;
    handler = some (λ b from to letter. let (e, b') = mail_handler addr to letter b in (b', e));
    msg_id_handler = none;
    handler_rcpt = none;
    max_size = pos 26214400;
    max_recipients = pos 0;
    tls_config = false;
    tls_required = false;
    disable_reverse_dns = false;
    x_client_allowed = [];
  }
