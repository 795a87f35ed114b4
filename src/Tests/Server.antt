-- ===== src/Tests/Server.antt =====
-- Concrete runs of internal/mhalesmtpd and internal/loginlimit.
use xyecoc_mailbridge.Base.{
  ℕ, suc, ◌+◌, ◌<◌, ◌≡◌, ◌≢◌, refl, true, false, Option, none, some, List, [], ◌∷◌, ◌++◌, Bytes,
  codes, length, arith, lookup, leb, eqb, map,
}
use xyecoc_mailbridge.Text.{
  no_tables, lower_byte, has_byte, cut_byte, trim_space, to_upper, split, pos,
}
use xyecoc_mailbridge.LoginLimit.{
  new, allowed, Call, failure_call, success_call, run, block_duration, max_failed_attempts, or_zero,
}
use xyecoc_mailbridge.LoginLimit.Counts.{status, clean, about, spec_run, run-status, run-new-below}
use xyecoc_mailbridge.LoginLimit.Blocking.{few_failures_allowed, fifth_failure_blocks}
use xyecoc_mailbridge.Smtpd.Syntax.{mail_from, rcpt_to, parameters, verb_of, parse_line, mech_of}
use xyecoc_mailbridge.Smtpd.Syntax.Paths.{mail_from-path, rcpt_to-path, rcpt_to-IsAddress}
use xyecoc_mailbridge.Smtpd.Session.{line, Server, Env, Session, established}
use xyecoc_mailbridge.Smtpd.Data.{read_data, exceeds, received}
use xyecoc_mailbridge.Smtpd.Data.Dots.{send_message, join_lines, read_data-send_message}
use xyecoc_mailbridge.Smtpd.Auth.{authenticate}
use xyecoc_mailbridge.Smtpd.Serve.{Connection, new_session, serve}

abbrev home : Bytes
home = codes "10.0.0.1"

abbrev away : Bytes
away = codes "10.0.0.2"

home-ne-nil : home ≢ []
home-ne-nil e = cc e

abbrev calls : List Call
calls =
    failure_call 1 home
    ∷ failure_call 2 away
    ∷ failure_call 3 home
    ∷ failure_call 4 home
    ∷ success_call away
    ∷ failure_call 5 home
    ∷ failure_call 6 home
    ∷ []

run-status_example : status home (run calls new) ≡ spec_run (about home calls) (status home new)
run-status_example = run-status calls home new home-ne-nil

run-new-below_example : or_zero (lookup home (run calls new).failed) < max_failed_attempts
run-new-below_example = run-new-below calls home home-ne-nil

new-clean : status home new ≡ clean
unfolding new lookup
new-clean = refl

about-calls :
    about home calls
    ≡ map (λ at. failure_call at home) (1 ∷ 3 ∷ 4 ∷ 5 ∷ []) ++ (failure_call 6 home ∷ [])
unfolding about eqb
about-calls = refl

fifth_failure_blocks_example : (allowed 100 home (run calls new)).0 ≡ leb (6 + block_duration) 100
fifth_failure_blocks_example =
    fifth_failure_blocks calls home new (1 ∷ 3 ∷ 4 ∷ 5 ∷ []) 6 100 home-ne-nil new-clean refl
      about-calls

abbrev few_calls : List Call
few_calls = failure_call 1 home ∷ failure_call 2 away ∷ failure_call 3 home ∷ []

about-few_calls : about home few_calls ≡ map (λ at. failure_call at home) (1 ∷ 3 ∷ [])
unfolding about eqb
about-few_calls = refl

few_failures_allowed_example : (allowed 100 home (run few_calls new)).0 ≡ true
few_failures_allowed_example =
    few_failures_allowed few_calls home new (1 ∷ 3 ∷ []) 100 home-ne-nil new-clean about-few_calls
      (omega arith)

-- A message with a line that begins with a period.
abbrev dotted : List Bytes
dotted = codes "a\r\n" ∷ codes ".b\r\n" ∷ codes ".\r" ∷ []

fits : exceeds (pos 100) (length (join_lines dotted)) ≡ false
unfolding exceeds join_lines
fits = refl

read_data-send_message_example :
    read_data (λ l. l) (pos 100) (send_message dotted (line (codes "QUIT\r\n") ∷ []))
    ≡ (received (join_lines dotted), line (codes "QUIT\r\n") ∷ [])
read_data-send_message_example =
    read_data-send_message (λ l. l) (pos 100) dotted (line (codes "QUIT\r\n") ∷ []) fits

abbrev ann : Bytes
ann = codes "ann@x"

from_word : map lower_byte (codes "From:") ≡ codes "from:"
unfolding lower_byte
from_word = refl

to_word : map lower_byte (codes "To:") ≡ codes "to:"
unfolding lower_byte
to_word = refl

no_newline : has_byte 10 ann ≡ false
unfolding has_byte
no_newline = refl

no_bracket : has_byte b'>' (codes " SIZE=5") ≡ false
unfolding has_byte
no_bracket = refl

mail_from-path_example :
    mail_from (codes "From:" ++ (b'<' ∷ (ann ++ (b'>' ∷ codes " SIZE=5"))))
    ≡ some (ann, parameters (codes " SIZE=5"))
mail_from-path_example =
    mail_from-path (codes "From:") ann (codes " SIZE=5") from_word no_newline no_bracket

recipient_here : rcpt_to (codes "To:" ++ (b'<' ∷ (ann ++ (b'>' ∷ codes " SIZE=5")))) ≡ some ann
recipient_here = rcpt_to-path (codes "To:") _ _ (codes " SIZE=5") to_word no_newline no_bracket

rcpt_to-IsAddress_example : (ann ≢ []) × (has_byte 10 ann ≡ false)
rcpt_to-IsAddress_example =
    rcpt_to-IsAddress (codes "To:" ++ (b'<' ∷ (ann ++ (b'>' ∷ codes " SIZE=5")))) ann recipient_here

-- A server that counts the messages it gets.
abbrev server : Server ℕ
server = record {
  hostname = codes "mailbridge";
  appname = codes "mailbridge";
  auth_handler = some (λ w m user pass shared. (w, eqb user ann, none));
  auth_mechs = λ m. some true;
  auth_required = true;
  handler = some (λ w from to text. (suc w, none));
  msg_id_handler = none;
  handler_rcpt = none;
  max_size = pos 100;
  max_recipients = pos 0;
  tls_config = false;
  tls_required = false;
  disable_reverse_dns = true;
  x_client_allowed = [];
}

-- The decoder knows the one text that the client below sends.
abbrev env : Env
env = record {
  unicode = no_tables;
  start_tls = established;
  discard = λ l. l;
  date = λ e. codes "today";
  challenge = λ e. codes "<1@mailbridge>";
  lookup_host = λ ip. none;
  is_ip = λ s. false;
  encode64 = λ s. s;
  decode64 = λ s. some (0 ∷ (ann ++ (0 ∷ codes "secret")));
}

abbrev connection : Connection
connection = record {
  address = home;
  is_tls = false;
  reads =
      line (codes "EHLO me\r\n")
      ∷ line (codes "AUTH PLAIN AGFubkB4\r\n")
      ∷ line (codes "MAIL FROM:<ann@x>\r\n")
      ∷ line (codes "RCPT TO:<bob@x>\r\n")
      ∷ line (codes "DATA\r\n")
      ∷ line (codes "hello\r\n")
      ∷ line (codes ".\r\n")
      ∷ line (codes "QUIT\r\n")
      ∷ [];
}

-- The client above delivers one message.
delivers_one : Option (Session ℕ) → ℕ
delivers_one none = 0
delivers_one (some t) = t.world

delivered_once : delivers_one (serve server env (new_session server env 0 connection)) ≡ 1
unfolding delivers_one serve new_session verb_of parse_line cut_byte trim_space to_upper mech_of
    authenticate split mail_from rcpt_to read_data
delivered_once = refl
