-- ===== src/Smtpd/Serve.antt =====
-- The switch and the loop of `serve` in internal/mhalesmtpd/smtpd.go.
use xyecoc_mailbridge.Base.{
  codes, eqb, ◌||◌, Bool, false, if◌then◌else◌, ℕ, zero, suc, Option, none, some, List, [], ◌∷◌,
  Bytes, length,
}
use xyecoc_mailbridge.Text.{trim_space}
use xyecoc_mailbridge.Smtpd.Syntax.{
  parse_line, Verb, verb_of, helo, ehlo as ehlo_verb, mail, rcpt, data_verb, quit, rset, noop,
  xclient, help_vrfy_expn, starttls, auth, unknown,
}
use xyecoc_mailbridge.Smtpd.Session.{
  Read, line, timed_out, net_failed, other_failed, Reply, Server, Env, Session, write,
}
use xyecoc_mailbridge.Smtpd.Mail.{
  Outcome, continue, stop, helo_case, ehlo_case, mail_case, rcpt_case, data_case, rset_case,
}
use xyecoc_mailbridge.Smtpd.Control.{known_host, xclient_case, starttls_case, auth_case}

-- An accepted connection: its address, whether it speaks TLS already, and what it will send.
pub record Connection : Type 0 where
  pub address : Bytes
  pub is_tls : Bool
  pub reads : List Read

unfoldable pub listed_ip : Bytes → List Bytes → Bool
unfolding eqb
listed_ip ip [] = false
listed_ip ip (a ∷ rest) = eqb ip a || listed_ip ip rest

-- `newSession`, and the variables with which `serve` starts.
unfoldable pub new_session : {W : Type 0} → Server W → Env → W → Connection → Session W
unfolding listed_ip known_host
new_session srv env w c = record {
  world = w;
  input = c.reads;
  events = [];
  remote_ip = c.address;
  remote_host =
      if srv.disable_reverse_dns
      then codes "unknown"
      else known_host srv env (env.lookup_host c.address);
  remote_name = [];
  x_client = [];
  x_client_addr = [];
  x_client_name = [];
  x_client_trust = listed_ip c.address srv.x_client_allowed;
  tls = c.is_tls;
  authenticated = false;
  from = [];
  got_from = false;
  to = [];
}

module _ {W : Type 0} (srv : Server W) (env : Env) where
  -- The switch over the verb.
  unfoldable pub dispatch : Verb → Bytes → Session W → Outcome W
  unfolding helo_case ehlo_case mail_case rcpt_case data_case rset_case xclient_case starttls_case
      auth_case write
  dispatch helo args s = continue (helo_case srv env args s)
  dispatch ehlo_verb args s = continue (ehlo_case srv env args s)
  dispatch mail args s = continue (mail_case srv env args s)
  dispatch rcpt args s = continue (rcpt_case srv env args s)
  dispatch data_verb args s = data_case srv env s
  dispatch quit args s = stop (write Reply.bye s)
  dispatch rset args s = continue (rset_case srv env s)
  dispatch noop args s = continue (write Reply.ok s)
  dispatch xclient args s = continue (xclient_case srv env args s)
  dispatch help_vrfy_expn args s = continue (write Reply.not_implemented s)
  dispatch starttls args s = continue (starttls_case srv env args s)
  dispatch auth args s = auth_case srv env args s
  dispatch unknown args s = continue (write Reply.unrecognized s)

  unfoldable pub command : Bytes → Session W → Outcome W
  unfolding dispatch
  command l s =
      let (verb, args) = parse_line env.unicode (trim_space l) in dispatch (verb_of verb) args s

  -- One round of the loop: a line is read and obeyed.
  unfoldable pub round : List Read → Session W → Outcome W
  unfolding command write
  round [] s = stop s
  round (line l ∷ rest) s = command l (record s { input = rest })
  round (timed_out ∷ rest) s = stop (write Reply.closing (record s { input = rest }))
  round (net_failed e ∷ rest) s = stop (record s { input = rest })
  round (other_failed e ∷ rest) s = stop (record s { input = rest })

  -- The loop; `none` means that the fuel ran out.
  unfoldable pub rounds : ℕ → Session W → Option (Session W)
  unfolding round
  rounds zero s = none
  rounds (suc f) s = elim (round s.input s) [ stop t ↦ some t | continue t ↦ rounds f t ]

  -- `serve`: one round for each read that is left, and one that finds none.
  unfoldable pub serve : Session W → Option (Session W)
  unfolding rounds write
  serve s = rounds (suc (length s.input)) (write Reply.banner s)
