-- ===== src/Tests/Reads.antt =====
-- Concrete runs of FETCH and APPEND.
use xyecoc_mailbridge.Remote.{mail_mutation_ok}
use xyecoc_mailbridge.Imap.User.{call}
use xyecoc_mailbridge.Base.{ℕ, true, none, some, [], ◌∷◌, codes, ◌≡◌, refl}
use xyecoc_mailbridge.Imap.Names.{spec_of}
use xyecoc_mailbridge.Imap.Mailbox.{draft}
use xyecoc_mailbridge.Imap.Mailbox.Fetch.{Backendutil}
use xyecoc_mailbridge.Imap.Mailbox.Literals.{Reader}
use xyecoc_mailbridge.Imap.Mailbox.Reads.{create_message}
use xyecoc_mailbridge.Imap.Mailbox.Reads.Appended.{Drafted, create_message-Drafted}
use xyecoc_mailbridge.Imap.User.Change.{ok}
use xyecoc_mailbridge.Tests.Backend.{api, cfg, user}
use xyecoc_mailbridge.Tests.Letters.{writer, http}

abbrev util : Backendutil
util = record {
  envelope_of = λ t. t;
  structure_of = λ long t. t;
  section_name = λ i. none;
  has_header = λ t. true;
  section_of = λ t name. t;
}

abbrev reader : Reader ℕ
reader = record {
  parse_rfc3339 = λ s. none;
  parse_local = λ s. some 5;
  now = λ w. w;
  http = http;
  decoder = record {
    int = λ b. none;
    float = λ b. none;
    string = λ b. none;
    bool = λ b. none;
    field = λ k b. none;
    status = λ b. none;
    message = λ b. [];
    detail = λ b. none;
    wrapped = λ b. none;
  };
  writer = writer;
}

appended_here :
    (create_message api cfg
      (spec_of (codes "draft"))
      (draft ∷ [])
      (some (codes "Subject: a\n\nb"))
      user).0
    ≡ ok
unfolding create_message call mail_mutation_ok
appended_here = refl

create_message-Drafted_example :
    Drafted api cfg
      (spec_of (codes "draft"))
      (draft ∷ [])
      (codes "Subject: a\n\nb")
      user
      (create_message api cfg
        (spec_of (codes "draft"))
        (draft ∷ [])
        (some (codes "Subject: a\n\nb"))
        user).1
create_message-Drafted_example =
    create_message-Drafted api cfg (spec_of (codes "draft")) (draft ∷ []) (codes "Subject: a\n\nb")
      user appended_here
