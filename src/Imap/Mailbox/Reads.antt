-- ===== src/Imap/Mailbox/Reads.antt =====
-- internal/imapbackend/mailbox.go: FETCH, SEARCH and APPEND.
pub mod Listed
pub mod Appended
use xyecoc_mailbridge.Base.{
  ℕ, zero, suc, ◌+◌, ◌%◌, ◌^◌, Bool, true, false, not, ◌&&◌, ◌||◌, Option, none, some, List, [],
  ◌∷◌, ◌++◌, Bytes, codes, is_empty, if◌then◌else◌, ◌⊎◌, inl, inr,
}
use xyecoc_mailbridge.Text.{Unicode, to_lower, has_prefix, cut_byte, split, join, trim_space}
use xyecoc_mailbridge.Remote.{
  MailSummary, text, files, Request, request, Answer, answered, unreachable, mail_mutation_ok, Api,
}
use xyecoc_mailbridge.Remote.Client.{Client}
use xyecoc_mailbridge.Imap.Names.{MailboxSpec}
use xyecoc_mailbridge.Imap.User.{Settings, User, call, invalidate_spec}
use xyecoc_mailbridge.Imap.User.Change.{Status, ok, unsupported, api_error, refused}
use xyecoc_mailbridge.Imap.Mailbox.{
  SeqSet, Flag, draft, uint32, load_summaries, mailbox_max_seq_and_uid, seq_set_addresses_message,
  sort,
}
use xyecoc_mailbridge.Imap.Mailbox.Fetch.{
  FetchItem, Backendutil, Literal, Message, fetch, needs_full_rfc822,
}
use xyecoc_mailbridge.Imap.Mailbox.Literals.{Reader, build_literal, build_literal_preview}

-- The header and the body of an APPEND, cut at the first blank line.
unfoldable pub split_lines : List Bytes → List Bytes × List Bytes
unfolding trim_space
split_lines [] = ([], [])
split_lines (ln ∷ lns) =
    let (hdr, body) = split_lines lns in
    if is_empty (trim_space ln) then ([], lns) else (ln ∷ hdr, body)

-- The parts that are not blank.
unfoldable pub nonblank : List Bytes → List Bytes
unfolding trim_space
nonblank [] = []
nonblank (p ∷ ps) =
    let rest = nonblank ps in let t = trim_space p in if is_empty t then rest else t ∷ rest

-- What stands behind the colon.
unfoldable pub field_value : Bytes → Bytes
unfolding cut_byte trim_space
field_value ln = elim (cut_byte b':' ln) [ none ↦ [] | some (a, b) ↦ trim_space b ]

-- The subject and the recipients in the lines of a header.
unfoldable pub read_header : Unicode → List Bytes → Bytes × List Bytes → Bytes × List Bytes
unfolding to_lower has_prefix field_value nonblank split
read_header u [] found = found
read_header u (ln ∷ lns) (subject, to) =
    let lower = to_lower u ln in
    read_header u lns (
      if has_prefix lower (codes "subject:") then field_value ln else subject,
      if has_prefix lower (codes "to:") then to ++ nonblank (split b',' (field_value ln)) else to,
    )

-- `parseMIMEForCompose`, which reports no error.
pub record Composed : Type 0 where
  pub subject : Bytes
  pub html : Bytes
  pub to : List Bytes

unfoldable pub parse_mime_for_compose : Unicode → Bytes → Composed
unfolding split_lines read_header split join trim_space
parse_mime_for_compose u raw =
    let (hdr, body) = split_lines (split b'\n' raw) in
    let (subject, to) = read_header u hdr ([], []) in
    record {
      subject = if is_empty subject then codes "(no subject)" else subject;
      html = trim_space (join (codes "\n") body);
      to = to;
    }

unfoldable pub has_draft : List Flag → Bool
has_draft [] = false
has_draft (f ∷ fs) = let rest = has_draft fs in elim f [ draft ↦ true | _ ↦ rest ]

-- Is the message with this number addressed?
unfoldable pub is_addressed : Bool → Option SeqSet → ℕ × ℕ → ℕ → MailSummary → Bool
unfolding uint32 seq_set_addresses_message
is_addressed uid set max seq_num s =
    seq_set_addresses_message uid set (if uid then uint32 s.id else seq_num) max.0 max.1

-- A message that was made, in front of the others.
unfoldable pub with_message : Option Message → List Message → List Message
with_message none rest = rest
with_message (some m) rest = m ∷ rest

module _ {W : Type 0} (api : Api W) (cfg : Settings) (spec : MailboxSpec) where
  -- The request of an APPEND.
  unfoldable pub draft_request : Bytes → Request
  unfolding parse_mime_for_compose join
  draft_request raw =
      let m = parse_mime_for_compose api.unicode raw in
      record (request (codes "mail") (codes "message-new") cfg.compose_lang) {
        draft = true;
        fields =
            (codes "subject", text m.subject)
            ∷ (codes "message", text m.html)
            ∷ (codes "users", text (join (codes ",") m.to))
            ∷ (codes "attaches", files [])
            ∷ [];
      }

  unfoldable pub finish_append : Answer × User W → Status × User W
  unfolding invalidate_spec
  finish_append (unreachable e, u) = (api_error e, u)
  finish_append (answered r, u) =
      if mail_mutation_ok api.json api.unicode r
      then (ok, invalidate_spec api cfg spec u)
      else (refused (codes "draft save") r.message, u)

  -- `CreateMessage`; the body is what `io.ReadAll` gives, `none` for an error.
  unfoldable pub create_message : List Flag → Option Bytes → User W → Status × User W
  unfolding has_draft finish_append draft_request
  create_message flags none u = (api_error (codes "read"), u)
  create_message flags (some raw) u =
      if has_draft flags
      then finish_append (call api cfg (draft_request raw) u)
      else (unsupported, u)

  module _ (lib : Reader W) (util : Backendutil) (pending : List ℕ) (c : Client) where
    -- A preview where the letter cannot be built.
    unfoldable pub or_preview : MailSummary → (Bytes ⊎ Literal) × W → Literal × W
    unfolding build_literal_preview
    or_preview s (inl e, w) = (build_literal_preview lib spec pending s w, w)
    or_preview s (inr m, w) = (m, w)

    -- The letter that FETCH reads.
    unfoldable pub literal_for : List FetchItem → MailSummary → W → Literal × W
    unfolding or_preview build_literal build_literal_preview needs_full_rfc822
    literal_for items s w =
        if needs_full_rfc822 util items
        then or_preview s (build_literal lib spec pending c cfg.view_lang s w)
        else (build_literal_preview lib spec pending s w, w)

    -- One message of `ListMessages`: `none` where it is not addressed or cannot be made.
    unfoldable pub list_one :
        Bool → Option SeqSet → List FetchItem → ℕ × ℕ → ℕ → MailSummary → W → Option Message × W
    unfolding is_addressed literal_for fetch
    list_one uid set items max seq_num s w =
        let (m, w') = literal_for items s w in
        if is_addressed uid set max seq_num s then (fetch util m seq_num items, w') else (none, w)

    -- The loop of `ListMessages` from number `seq` on.
    unfoldable pub list_from :
        Bool → Option SeqSet → List FetchItem → ℕ × ℕ → ℕ → List MailSummary → W → List Message × W
    unfolding list_one with_message
    list_from uid set items max seq [] w = ([], w)
    list_from uid set items max seq (s ∷ ss) w =
        let (o, w') = list_one uid set items max (seq % 2 ^ 32) s w in
        let (rest, w'') = list_from uid set items max (suc seq) ss w' in (with_message o rest, w'')

    unfoldable pub list_loaded :
        Bool
        → Option SeqSet
        → List FetchItem
        → (Bytes ⊎ List MailSummary) × User W
        → (Bytes ⊎ List Message) × User W
    unfolding list_from mailbox_max_seq_and_uid sort
    list_loaded uid set items (inl e, u) = (inl e, u)
    list_loaded uid set items (inr sums, u) =
        let sorted = sort sums in
        let (ms, w) = list_from uid set items (mailbox_max_seq_and_uid sorted) 1 sorted u.world in
        (inr ms, record u { world = w })

    -- `ListMessages`: the messages that are sent, or an error.
    unfoldable pub list_messages :
        Bool → Option SeqSet → List FetchItem → User W → (Bytes ⊎ List Message) × User W
    unfolding list_loaded load_summaries
    list_messages uid set items u = list_loaded uid set items (load_summaries api cfg spec u)

    -- The loop of `SearchMessages`; `test` is `Match`, `none` for an error.
    unfoldable pub search_from :
        Bool → (ℕ → Literal → Option Bool) → ℕ → List MailSummary → W → List ℕ × W
    unfolding or_preview build_literal uint32
    search_from uid test seq [] w = ([], w)
    search_from uid test seq (s ∷ ss) w =
        let seq_num = seq % 2 ^ 32 in
        let (m, w') = or_preview s (build_literal lib spec pending c cfg.view_lang s w) in
        let (rest, w'') = search_from uid test (suc seq) ss w' in
        elim (test seq_num m) [
          | some true ↦ ((if uid then uint32 s.id else seq_num) ∷ rest, w'')
          | some false ↦ (rest, w'')
          | none ↦ (rest, w'')
        ]

    unfoldable pub search_loaded :
        Bool
        → (ℕ → Literal → Option Bool)
        → (Bytes ⊎ List MailSummary) × User W
        → (Bytes ⊎ List ℕ) × User W
    unfolding search_from sort
    search_loaded uid test (inl e, u) = (inl e, u)
    search_loaded uid test (inr sums, u) =
        let (found, w) = search_from uid test 1 (sort sums) u.world in
        (inr found, record u { world = w })

    -- `SearchMessages`.
    unfoldable pub search_messages :
        Bool → (ℕ → Literal → Option Bool) → User W → (Bytes ⊎ List ℕ) × User W
    unfolding search_loaded load_summaries
    search_messages uid test u = search_loaded uid test (load_summaries api cfg spec u)
