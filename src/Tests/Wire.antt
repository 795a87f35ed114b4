-- ===== src/Tests/Wire.antt =====
-- Concrete runs of the logs and of the configuration.
use xyecoc_mailbridge.Base.{true, some, [], ◌∷◌, ◌++◌, Bytes, codes, ◌≡◌, refl, joined, All}
use xyecoc_mailbridge.Text.{Inline, is_inline, no_tables, with_ends, fields, equal_fold}
use xyecoc_mailbridge.Wire.{emit_lines, write_all, redact_imap_line}
use xyecoc_mailbridge.Wire.Chunks.{write_all-with_ends}
use xyecoc_mailbridge.Wire.Secrets.{IsWord, is_graphic, redact_imap_line-login}
use xyecoc_mailbridge.Remote.Redact.{
  Tree, string, object, member, end, Codec, is_password, redact_json_string,
}
use xyecoc_mailbridge.Remote.Redact.Alike.{objects, secrets, ends, redact_json_string-Alike}
use xyecoc_mailbridge.Config.{load, InRange, load-InRange}

ok-Inline : All Inline (codes "ok" ∷ [])
unfolding Inline is_inline
ok-Inline = ((refl, (refl, tt)), tt)

in_pieces :
    joined (codes "o" ∷ (b'k' ∷ b'\r' ∷ []) ∷ (b'\n' ∷ []) ∷ []) ≡ with_ends (codes "ok" ∷ [])
unfolding joined with_ends
in_pieces = refl

write_all-with_ends_example :
    write_all no_tables (codes "o" ∷ (b'k' ∷ b'\r' ∷ []) ∷ (b'\n' ∷ []) ∷ []) []
    ≡ (emit_lines no_tables (codes "ok" ∷ []), [])
write_all-with_ends_example =
    write_all-with_ends no_tables (codes "o" ∷ (b'k' ∷ b'\r' ∷ []) ∷ (b'\n' ∷ []) ∷ [])
      (codes "ok" ∷ []) ok-Inline in_pieces

tag-IsWord : IsWord (codes "A1")
unfolding IsWord is_graphic
tag-IsWord = (refl, (refl, (refl, tt)))

verb-IsWord : IsWord (codes "login")
unfolding IsWord is_graphic
verb-IsWord = (refl, (refl, (refl, (refl, (refl, (refl, tt))))))

is_login : equal_fold no_tables (codes "login") (codes "LOGIN") ≡ true
unfolding equal_fold
is_login = refl

has_one_field : fields (codes "pw") ≡ codes "pw" ∷ []
unfolding fields
has_one_field = refl

redact_imap_line-login_example :
    redact_imap_line no_tables
      (codes "A1" ++ b' ' ∷ (codes "login" ++ b' ' ∷ (codes "A1" ++ b' ' ∷ codes "pw")))
    ≡ codes "A1" ++ (codes " LOGIN " ++ (codes "A1" ++ codes " [redacted]"))
redact_imap_line-login_example =
    redact_imap_line-login no_tables (codes "A1") (codes "login") (codes "A1") (codes "pw")
      (codes "pw") [] tag-IsWord verb-IsWord tag-IsWord is_login has_one_field

abbrev request_with : Bytes → Tree
request_with pw = object (member (codes "Password") (string pw) end)

abbrev codec : Codec
codec = record {
  unmarshal = λ s. some (request_with s);
  marshal = λ t. some (codes "{}");
  unicode = no_tables;
}

is_secret : is_password codec (codes "Password") ≡ true
unfolding is_password
is_secret = refl

redact_json_string-Alike_example :
    redact_json_string codec (codes "one") ≡ redact_json_string codec (codes "two")
redact_json_string-Alike_example =
    redact_json_string-Alike codec (codes "one") (codes "two") (codes "{}")
      (request_with (codes "one")) (request_with (codes "two")) refl refl refl refl refl
      (objects (secrets is_secret ends))

load-InRange_example : InRange (load no_tables (λ key. codes "0")).max_mail_list
load-InRange_example = load-InRange no_tables (λ key. codes "0")
