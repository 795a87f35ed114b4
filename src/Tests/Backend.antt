-- ===== src/Tests/Backend.antt =====
-- Concrete runs of internal/imapbackend and internal/identity.
use xyecoc_mailbridge.Imap.User.Resolve.{resolve_mailbox_spec}
use xyecoc_mailbridge.Base.{
  put, lookup, ℕ, suc, ◌-◌, ◌^◌, ◌≤◌, ◌<◌, ◌≡◌, ◌≢◌, refl, true, false, ◌&&◌, none, some, List, [],
  ◌∷◌, Bytes, codes, length, arith, All, inr, eqb, is_empty, if◌then◌else◌, ltb, ◌+◌,
}
use xyecoc_mailbridge.Text.{
  atoi, itoa, has_prefix, cut_prefix, to_lower, replace_byte, split, no_tables, decimal, pos,
  trim_space, has_byte,
}
use xyecoc_mailbridge.Identity.{
  expand_local_part, remote_auth_email, remote_auth_email-expand_local_part,
}
use xyecoc_mailbridge.Remote.{
  merge_mail_list_fields, mail_list_response_ok, mail_mutation_ok, MailSummary, Response, answered,
  Api,
}
use xyecoc_mailbridge.Imap.Names.{
  mailbox_leaf, folder_name_for_api, tag_create_display_name, MailboxSpec, spec_of, sanitize,
  canonical_name, parse_mailbox_name, unique_display_name, unique_tag_display_name,
}
use xyecoc_mailbridge.Imap.Names.RoundTrip.{IsMailbox, folder, parse_mailbox_name-canonical_name}
use xyecoc_mailbridge.Imap.Names.Fresh.{
  IsNew, unique_display_name-IsNew, unique_tag_display_name-IsNew,
}
use xyecoc_mailbridge.Imap.Names.Sanitized.{is_safe, sanitize-IsSafe}
use xyecoc_mailbridge.Imap.User.{
  refresh_folder_tag_name_index, Settings, User, standard, call, folders_tags, listing,
  list_mailboxes,
}
use xyecoc_mailbridge.Imap.User.Change.{ok, create_mailbox, delete_mailbox}
use xyecoc_mailbridge.Imap.User.Listed.{Lists, list_mailboxes-Lists}
use xyecoc_mailbridge.Imap.User.Evicted.{NoExtras, create_mailbox-NoExtras}
use xyecoc_mailbridge.Imap.Mailbox.{
  sort, SeqSet, uint32, max_uid, next_uid, mailbox_max_seq_and_uid, seq_set_addresses_message,
  load_summaries, cached, store, pages,
}
use xyecoc_mailbridge.Imap.Mailbox.Cache.{load_summaries-lifetime}
use xyecoc_mailbridge.Imap.Mailbox.Numbers.{next_uid-above, star-addresses}
use xyecoc_mailbridge.Imap.Mailbox.Actions.{Mailbox, move_to, expunge}
use xyecoc_mailbridge.Imap.Mailbox.Actions.Evicts.{Uncached, move_to-Uncached, expunge-pending}

not_blank : is_empty (trim_space (codes " ann ")) ≡ false
unfolding trim_space
not_blank = refl

no_at : has_byte b'@' (trim_space (codes " ann ")) ≡ false
unfolding trim_space has_byte
no_at = refl

remote_auth_email-expand_local_part_example :
    remote_auth_email (expand_local_part (codes " ann ") (codes "@x.org")) true
    ≡ trim_space (codes " ann ")
remote_auth_email-expand_local_part_example =
    remote_auth_email-expand_local_part (codes " ann ") (codes "@x.org") not_blank no_at

folder_12 : IsMailbox (record { param1 = codes "folders"; param2 = codes "12" })
unfolding decimal
folder_12 = folder 12 (omega arith)

parse_mailbox_name-canonical_name_example :
    parse_mailbox_name no_tables
      (canonical_name (record { param1 = codes "folders"; param2 = codes "12" }))
    ≡ some (record { param1 = codes "folders"; param2 = codes "12" })
parse_mailbox_name-canonical_name_example = parse_mailbox_name-canonical_name no_tables folder_12

abbrev spec_3 : MailboxSpec
spec_3 = record { param1 = codes "folders"; param2 = codes "3" }

abbrev occupied : List Bytes
occupied = codes "INBOX" ∷ codes "Work" ∷ codes "Tag-Work" ∷ codes "Work [folders 3]" ∷ []

unique_display_name-IsNew_example :
    IsNew occupied (unique_display_name no_tables (codes "Work") spec_3 occupied)
unique_display_name-IsNew_example =
    unique_display_name-IsNew no_tables (codes "Work") spec_3 occupied

unique_tag_display_name-IsNew_example :
    IsNew occupied (unique_tag_display_name no_tables (codes "Work") spec_3 occupied)
unique_tag_display_name-IsNew_example =
    unique_tag_display_name-IsNew no_tables (codes "Work") spec_3 occupied

sanitize-IsSafe_example :
    (length (sanitize (codes " a/b\\c\n ")) ≤ 200)
    × All (λ c. is_safe c ≡ true) (sanitize (codes " a/b\\c\n "))
sanitize-IsSafe_example = sanitize-IsSafe (codes " a/b\\c\n ")

-- An API that answers every request with the same folders, tags and messages, and counts them.
abbrev pub mail_one : MailSummary
mail_one = record {
  id = pos 41;
  from_name = codes "Bob";
  sender = [];
  snippet = [];
  subject = codes "hi";
  read = false;
  important = true;
  from_email = codes "bob@x.org";
  created_at = codes "2026-01-02 03:04:05";
}

abbrev response : Response
response = record {
  status = pos 1;
  message = [];
  mails = mail_one ∷ [];
  total = some (pos 1);
  folders = record { id = pos 3; name = codes "Work"; from = []; contains = [] } ∷ [];
  tags = record { id = pos 5; name = codes "7" } ∷ [];
  raw_data = [];
}

abbrev pub api : Api ℕ
api = record {
  perform = λ req w. (answered response, suc w);
  now = λ w. w;
  range_order = λ w A xs. xs;
  json = record {
    nested_status = λ b. none;
    nested_message = λ b. none;
    nested_token = λ b. none;
    text_token = λ b. none;
    nested_mails = λ b. none;
  };
  unicode = no_tables;
}

abbrev pub cfg : Settings
cfg = record {
  email = codes "ann@x.org";
  max_list = 100;
  default_lang = codes "inbox";
  view_lang = codes "mail";
  compose_lang = codes "mail";
  tag_color = codes "ADACF1";
  client_lang = [];
}

abbrev pub user : User ℕ
user = record { world = 0; list_cache = []; spec_by_list_name = standard }

-- The set `*`.
abbrev pub star : SeqSet
star = record { empty = false; contains = λ n. false; dynamic = true }

abbrev mailbox : Mailbox ℕ
mailbox = record { user = user; pending_deleted = 41 ∷ 42 ∷ [] }

list_mailboxes-Lists_example :
    Lists
      (listing api cfg (call api cfg (folders_tags api cfg) user).0)
      (list_mailboxes api cfg user).0
list_mailboxes-Lists_example = list_mailboxes-Lists api cfg user

created_here : (create_mailbox api cfg (codes "News") user).0 ≡ ok
unfolding create_mailbox tag_create_display_name split replace_byte trim_space folder_name_for_api
    to_lower cut_prefix resolve_mailbox_spec has_prefix lookup refresh_folder_tag_name_index
    unique_display_name unique_tag_display_name put itoa mailbox_leaf mail_mutation_ok
created_here = refl

deleted_here : (delete_mailbox api cfg (codes "Folder-3") user).0 ≡ ok
unfolding delete_mailbox resolve_mailbox_spec trim_space has_prefix to_lower parse_mailbox_name
    cut_prefix atoi call mail_mutation_ok
deleted_here = refl

pub loaded_here : (load_summaries api cfg (spec_of (codes "inbox")) user).0 ≡ inr (mail_one ∷ [])
unfolding load_summaries lookup call mail_list_response_ok merge_mail_list_fields
loaded_here = refl

moved_here :
    (move_to api cfg (spec_of (codes "inbox")) true (some star) (some spec_3) mailbox).0 ≡ ok
unfolding move_to load_summaries lookup call mail_list_response_ok merge_mail_list_fields sort
    seq_set_addresses_message uint32 mailbox_max_seq_and_uid mail_mutation_ok
moved_here = refl

expunged_here : (expunge api cfg (spec_of (codes "inbox")) mailbox).0 ≡ ok
unfolding expunge call mail_mutation_ok
expunged_here = refl

create_mailbox-NoExtras_example : NoExtras (create_mailbox api cfg (codes "News") user).1.list_cache
create_mailbox-NoExtras_example = create_mailbox-NoExtras api cfg (codes "News") user created_here

abbrev inbox_spec : MailboxSpec
inbox_spec = spec_of (codes "inbox")

not_cached : cached api cfg inbox_spec user ≡ none
unfolding cached lookup
not_cached = refl

load_summaries-lifetime_example :
    load_summaries api cfg inbox_spec (load_summaries api cfg inbox_spec user).1 ≡ (
      if ltb
        (api.now (load_summaries api cfg inbox_spec user).1.world)
        (api.now (load_summaries api cfg inbox_spec user).1.world + 45000000000)
      then (inr (mail_one ∷ []), (load_summaries api cfg inbox_spec user).1)
      else store api cfg inbox_spec
          (pages api cfg 500 inbox_spec 1 [] (load_summaries api cfg inbox_spec user).1))
load_summaries-lifetime_example =
    load_summaries-lifetime api cfg inbox_spec user (load_summaries api cfg inbox_spec user).1
      (mail_one ∷ []) not_cached loaded_here refl

elsewhere : (eqb spec_3.param1 inbox_spec.param1 && eqb spec_3.param2 inbox_spec.param2) ≡ false
unfolding eqb
elsewhere = refl

move_to-Uncached_example :
    Uncached inbox_spec (move_to api cfg inbox_spec true (some star) (some spec_3) mailbox).1
    × Uncached spec_3 (move_to api cfg inbox_spec true (some star) (some spec_3) mailbox).1
move_to-Uncached_example =
    move_to-Uncached api cfg inbox_spec true (some star) spec_3 mailbox elsewhere moved_here

expunge-pending_example :
    ((expunge api cfg inbox_spec mailbox).1.pending_deleted ≡ [])
    × Uncached inbox_spec (expunge api cfg inbox_spec mailbox).1
expunge-pending_example = expunge-pending api cfg inbox_spec (λ w ids x h. h) mailbox expunged_here

small_ids : All (λ s. uint32 s.id < 2 ^ 32 - 1) (mail_one ∷ [])
unfolding uint32
small_ids = (omega arith, tt)

next_uid-above_example : All (λ s. uint32 s.id < next_uid (mail_one ∷ [])) (mail_one ∷ [])
next_uid-above_example = next_uid-above (mail_one ∷ []) small_ids

uid_not_zero : uint32 mail_one.id ≢ 0
unfolding uint32
uid_not_zero e = absurd (omega (arith, e))

star-addresses_example :
    seq_set_addresses_message true
      (some star)
      (max_uid (mail_one ∷ []) 0)
      (mailbox_max_seq_and_uid (mail_one ∷ [])).0
      (mailbox_max_seq_and_uid (mail_one ∷ [])).1
    ≡ true
star-addresses_example = star-addresses star mail_one [] refl refl uid_not_zero
