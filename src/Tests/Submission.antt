-- ===== src/Tests/Submission.antt =====
-- Concrete runs of internal/smtpbridge and of the IMAP login.
use xyecoc_mailbridge.Login.{token_of}
use xyecoc_mailbridge.Outgoing.Walk.{parse_outbound_mail}
use xyecoc_mailbridge.Base.{
  zero, suc, eqb, ℕ, true, false, none, some, [], ◌∷◌, Bytes, codes, ◌≡◌, refl, lookup, is_some,
  ◌≤◌, ◌+◌, arith, Option,
}
use xyecoc_mailbridge.Text.{no_tables, pos, has_byte, trim_space, decimal}
use xyecoc_mailbridge.Remote.{
  extract_token, mail_mutation_ok, Response, answered, text, Request, Answer, unreachable,
}
use xyecoc_mailbridge.Imap.Letters.Reply.{mention, submission-mention}
use xyecoc_mailbridge.Tests.Letters.{mime, reply}
use xyecoc_mailbridge.Outgoing.{Outbound}
use xyecoc_mailbridge.Submit.{Gateway, Config, Bridge, auth_handler, mail_handler, submission}
use xyecoc_mailbridge.Imap.Login.{Agrees, login, backend_of, login-auth_handler, authorized, admit}
use xyecoc_mailbridge.Submit.Handlers.{Sent, mail_handler-Sent, auth_handler-token}

abbrev success : Response
success = record {
  status = pos 1;
  message = [];
  mails = [];
  total = none;
  folders = [];
  tags = [];
  raw_data = codes "T";
}

-- An answer that takes a nanosecond, and is not awaited where the limit is shorter.
abbrev answer_within : Option ℕ → ℕ → Answer × ℕ
answer_within none w = (answered success, suc w)
answer_within (some zero) w = (unreachable (codes "context deadline exceeded"), w)
answer_within (some (suc d)) w = (answered success, suc w)

-- An API that accepts every login and every message, and counts the calls.
abbrev gateway : Gateway ℕ
gateway = record {
  perform = λ limit token req w. answer_within limit w;
  now = λ w. w;
  json = record {
    nested_status = λ b. none;
    nested_message = λ b. none;
    nested_token = λ b. none;
    text_token = some;
    nested_mails = λ b. none;
  };
  unicode = no_tables;
  mime = mime;
}

abbrev config : Config
config = record {
  default_mail_domain = codes "x.org";
  remote_auth_email_local_part_only = true;
  mail_compose_current_lang = codes "mail";
}

abbrev client : Bytes
client = codes "10.0.0.1"

abbrev port : Bytes
port = codes "10.0.0.1:4000"

abbrev fresh_bridge : Bridge ℕ
fresh_bridge = record { world = 7; limit = none; tokens = [] }

abbrev open_bridge : Bridge ℕ
open_bridge = record { world = 7; limit = none; tokens = (port, codes "T") ∷ [] }

taken_over : (mail_handler gateway config port (codes "bob" ∷ []) (codes "m") open_bridge).0 ≡ none
unfolding mail_handler lookup eqb mail_mutation_ok parse_outbound_mail
taken_over = refl

mail_handler-Sent_example : Sent gateway config port (codes "bob" ∷ []) (codes "m") open_bridge
mail_handler-Sent_example =
    mail_handler-Sent gateway config port (codes "bob" ∷ []) (codes "m") open_bridge taken_over

logs_in : (auth_handler gateway config client port (codes "ann") (codes "pw") fresh_bridge).0 ≡ true
unfolding auth_handler extract_token
logs_in = refl

auth_handler-token_example :
    is_some (
      lookup port
        (auth_handler gateway config client port (codes "ann") (codes "pw") fresh_bridge).1.tokens)
    ≡ true
auth_handler-token_example =
    auth_handler-token gateway config client port (codes "ann") (codes "pw") fresh_bridge logs_in

answers_in_time :
    (d : ℕ) (token : Bytes) (r : Request) (w : ℕ)
    → gateway.now (gateway.perform none token r w).1 ≤ gateway.now w + d
    → gateway.perform (some d) token r w ≡ gateway.perform none token r w
answers_in_time zero token r w h = absurd (omega (arith, h))
answers_in_time (suc d) token r w h = refl

in_a_second :
    gateway.now
      (login gateway config client
        (codes " ann ")
        (codes "pw")
        (backend_of gateway config fresh_bridge)).1.world
    ≤ gateway.now fresh_bridge.world + 30000000000
unfolding login authorized admit token_of extract_token
in_a_second = omega arith

login-auth_handler_example :
    Agrees gateway config
      (login gateway config client
        (codes " ann ")
        (codes "pw")
        (backend_of gateway config fresh_bridge))
      (auth_handler gateway config client port (codes " ann ") (codes "pw") fresh_bridge)
login-auth_handler_example =
    login-auth_handler gateway config client port (codes " ann ") (codes "pw") fresh_bridge
      answers_in_time in_a_second

no_bracket : has_byte b'<' [] ≡ false
unfolding has_byte
no_bracket = refl

no_id : trim_space (reply.get (codes "X-Remote-Mail-Id")) ≡ []
unfolding trim_space eqb
no_id = refl

names_41 : reply.get (codes "In-Reply-To") ≡ mention 41 [] []
unfolding mention eqb decimal
names_41 = refl

submission-mention_example :
    (m : Outbound) × (parse_outbound_mail mime no_tables (codes "raw") ≡ some m)
    × ((submission gateway config m (codes "bob" ∷ [])).action ≡ codes "reply-confirm")
    × (lookup (codes "mail_id") (submission gateway config m (codes "bob" ∷ [])).fields
        ≡ some (text (decimal 41)))
submission-mention_example =
    submission-mention gateway config 41 [] [] (codes "raw") (codes "bob" ∷ []) reply no_bracket
      refl no_id names_41
