-- ===== src/Imap/Mailbox/Actions.antt =====
-- internal/imapbackend/mailbox.go: STORE, COPY, MOVE, EXPUNGE and what STATUS counts.
pub mod Evicts
pub mod Acts
pub mod Requests
pub mod Effects
use xyecoc_mailbridge.Base.{
  ℕ, zero, suc, ◌+◌, ◌%◌, ◌^◌, Bool, true, false, not, ◌&&◌, Option, none, some, List, [], ◌∷◌,
  ◌++◌, Bytes, codes, eqb, length, if◌then◌else◌, inl, inr,
}
use xyecoc_mailbridge.Text.{ℤ, pos, itoa}
use xyecoc_mailbridge.Remote.{
  MailSummary, Response, Value, text, Request, request, Answer, answered, unreachable,
  mail_mutation_ok, Api,
}
use xyecoc_mailbridge.Imap.Names.{MailboxSpec, page_id}
use xyecoc_mailbridge.Imap.User.{Settings, User, call, invalidate_spec}
use xyecoc_mailbridge.Imap.User.Resolve.{resolve_mailbox_spec}
use xyecoc_mailbridge.Imap.User.Change.{
  Status, ok, no_such_mailbox, unsupported, api_error, refused, failure_text,
}
use xyecoc_mailbridge.Imap.Mailbox.{
  uint32, next_uid, count_unseen, mailbox_max_seq_and_uid, SeqSet, seq_set_addresses_message, sort,
  Flag, seen, deleted, flagged, draft, answered_flag, other, has_id, remove_id, load_summaries,
}

-- `imap.FlagsOp`.
pub data FlagsOp : Type 0 where
  set_flags add_flags remove_flags : FlagsOp

abbrev pub is_remove : FlagsOp → Bool
is_remove set_flags = false
is_remove add_flags = false
is_remove remove_flags = true

-- A selected mailbox: its user, and `pendingDeleted`.
pub record Mailbox (W : Type 0) : Type 0 where
  pub user : User W
  pub pending_deleted : List ℕ

unfoldable pub add_id : ℕ → List ℕ → List ℕ
add_id k ids = if has_id k ids then ids else k ∷ ids

-- The items of STATUS that are computed.
pub record Counts : Type 0 where
  pub messages : ℕ
  pub uid_next : ℕ
  pub unseen : ℕ

unfoldable pub counts : List MailSummary → Counts
counts sums = record {
  messages = length sums % 2 ^ 32;
  uid_next = next_uid sums;
  unseen = count_unseen sums 0;
}

-- The loops over the messages from number `seq` on, with those that the set addresses.
unfoldable pub addressed : Bool → Option SeqSet → ℕ × ℕ → ℕ → List MailSummary → List ℤ
addressed uid set max seq [] = []
addressed uid set max seq (s ∷ ss) =
    let rest = addressed uid set max (suc seq) ss in
    let seq_num = seq % 2 ^ 32 in
    let match_id = if uid then uint32 s.id else seq_num in
    if seq_set_addresses_message uid set match_id max.0 max.1 then s.id ∷ rest else rest

-- What COPY does with each message, `none` where it returns an error.
unfoldable pub copy_action : MailboxSpec → Option (Bytes × Option Bytes)
unfolding eqb
copy_action dest =
    if eqb dest.param1 (codes "tags")
    then some (codes "move-to-tag", some dest.param2)
    else if eqb dest.param1 (codes "folders")
    then some (codes "move-to-folder", some dest.param2)
    else none

unfoldable pub move_action : MailboxSpec → Option (Bytes × Option Bytes)
unfolding eqb copy_action
move_action dest =
    if eqb dest.param1 (codes "trash") then some (codes "delete", none) else copy_action dest

-- The field `data` of a mail-action.
unfoldable pub action_fields : ℤ → Bytes → Option Bytes → List (Bytes × Value)
action_fields id action none = (codes "id", text (itoa id)) ∷ (codes "action", text action) ∷ []
action_fields id action (some v) =
    (codes "id", text (itoa id)) ∷ (codes "action", text action) ∷ (codes "value", text v) ∷ []

module _ {W : Type 0} (api : Api W) (cfg : Settings) (spec : MailboxSpec) where
  unfoldable pub action_request : ℤ → Bytes → Option Bytes → Request
  unfolding action_fields
  action_request id action value =
      record (request (codes "mail") (codes "mail-action") cfg.view_lang) {
        page_id = page_id spec;
        fields = action_fields id action value;
      }

  -- `mailAction`.
  unfoldable pub mail_action : ℤ → Bytes → Option Bytes → Mailbox W → Status × Mailbox W
  unfolding action_request
  mail_action id action value m =
      let (a, u) = call api cfg (action_request id action value) m.user in
      let m' = record m { user = u } in
      elim a [
        | unreachable e ↦ (api_error e, m')
        | answered r ↦
            if mail_mutation_ok api.json api.unicode r
            then (ok, m')
            else (refused (codes "mail-action " ++ action) (failure_text api cfg r), m')
      ]

  -- The next step, where the one before returned no error.
  unfoldable pub then_do :
      Status × Mailbox W → (Mailbox W → Status × Mailbox W) → Status × Mailbox W
  then_do (ok, m) next = next m
  then_do (no_such_mailbox, m) next = (no_such_mailbox, m)
  then_do (Status.already_exists, m) next = (Status.already_exists, m)
  then_do (Status.bad_name, m) next = (Status.bad_name, m)
  then_do (unsupported, m) next = (unsupported, m)
  then_do (api_error e, m) next = (api_error e, m)
  then_do (refused a e, m) next = (refused a e, m)

  -- The cases of `applyFlagOp`.
  unfoldable pub apply_flag : ℤ → FlagsOp → Flag → Mailbox W → Status × Mailbox W
  unfolding mail_action then_do add_id
  apply_flag id op seen m = if is_remove op then (ok, m) else mail_action id (codes "read") none m
  apply_flag id op deleted m =
      if is_remove op
      then (ok, record m { pending_deleted = remove_id (uint32 id) m.pending_deleted })
      else then_do (mail_action id (codes "delete") none m)
          (λ m'. (ok, record m' { pending_deleted = add_id (uint32 id) m'.pending_deleted }))
  apply_flag id op flagged m =
      if is_remove op then (ok, m) else mail_action id (codes "important") none m
  apply_flag id op draft m = (ok, m)
  apply_flag id op answered_flag m = (ok, m)
  apply_flag id op (other f) m = (ok, m)

  -- `applyFlagOp`.
  unfoldable pub apply_flag_op : ℤ → FlagsOp → List Flag → Mailbox W → Status × Mailbox W
  unfolding apply_flag then_do
  apply_flag_op id op [] m = (ok, m)
  apply_flag_op id op (f ∷ fs) m = then_do (apply_flag id op f m) (apply_flag_op id op fs)

  -- A loop that does one thing with each message and stops at the first error.
  unfoldable pub each :
      (ℤ → Mailbox W → Status × Mailbox W) → List ℤ → Mailbox W → Status × Mailbox W
  unfolding then_do
  each act [] m = (ok, m)
  each act (id ∷ ids) m = then_do (act id m) (each act ids)

  -- The messages of the mailbox that the set addresses, in the order of their IDs.
  unfoldable pub selected : Bool → Option SeqSet → List MailSummary → List ℤ
  unfolding addressed
  selected uid set sums =
      let sorted = sort sums in addressed uid set (mailbox_max_seq_and_uid sorted) 1 sorted

  -- The commands over a set of messages, in front of what they do at the end.
  unfoldable pub over :
      Bool → Option SeqSet → (ℤ → Mailbox W → Status × Mailbox W) → Mailbox W → Status × Mailbox W
  unfolding selected each
  over uid set act m =
      let (loaded, u) = load_summaries api cfg spec m.user in
      let m' = record m { user = u } in
      elim loaded [ inl e ↦ (api_error e, m') | inr sums ↦ each act (selected uid set sums) m' ]

  unfoldable pub invalidate : MailboxSpec → Mailbox W → Mailbox W
  invalidate s m = record m { user = invalidate_spec api cfg s m.user }

  -- `UpdateMessagesFlags`.
  unfoldable pub update_messages_flags :
      Bool → Option SeqSet → FlagsOp → List Flag → Mailbox W → Status × Mailbox W
  unfolding over apply_flag_op then_do invalidate
  update_messages_flags uid set op flags m =
      then_do (over uid set (λ id. apply_flag_op id op flags) m) (λ m'. (ok, invalidate spec m'))

  -- One round of COPY and MOVE.
  unfoldable pub act_on : Option (Bytes × Option Bytes) → ℤ → Mailbox W → Status × Mailbox W
  unfolding mail_action
  act_on none id m = (unsupported, m)
  act_on (some (action, value)) id m = mail_action id action value m

  unfoldable pub copy_to :
      Bool → Option SeqSet → Option MailboxSpec → Mailbox W → Status × Mailbox W
  unfolding over act_on copy_action
  copy_to uid set none m = (no_such_mailbox, m)
  copy_to uid set (some dest) m = over uid set (act_on (copy_action dest)) m

  -- `CopyMessages`.
  unfoldable pub copy_messages : Bool → Option SeqSet → Bytes → Mailbox W → Status × Mailbox W
  unfolding copy_to
  copy_messages uid set name m =
      let (dest, u) = resolve_mailbox_spec api cfg name m.user in
      copy_to uid set dest (record m { user = u })

  unfoldable pub move_to :
      Bool → Option SeqSet → Option MailboxSpec → Mailbox W → Status × Mailbox W
  unfolding over act_on move_action then_do invalidate eqb
  move_to uid set none m = (no_such_mailbox, m)
  move_to uid set (some dest) m =
      if eqb dest.param1 spec.param1 && eqb dest.param2 spec.param2
      then (ok, m)
      else then_do (over uid set (act_on (move_action dest)) m)
          (λ m'. (ok, invalidate dest (invalidate spec m')))

  -- `MoveMessages`.
  unfoldable pub move_messages : Bool → Option SeqSet → Bytes → Mailbox W → Status × Mailbox W
  unfolding move_to
  move_messages uid set name m =
      let (dest, u) = resolve_mailbox_spec api cfg name m.user in
      move_to uid set dest (record m { user = u })

  -- The loop of `Expunge`.
  unfoldable pub expunge_ids : List ℕ → Mailbox W → Status × Mailbox W
  unfolding then_do mail_action
  expunge_ids [] m = (ok, m)
  expunge_ids (id ∷ ids) m =
      then_do (mail_action (pos id) (codes "delete") none m)
        (λ m'. expunge_ids ids (record m' { pending_deleted = remove_id id m'.pending_deleted }))

  -- `Expunge`.
  unfoldable pub expunge : Mailbox W → Status × Mailbox W
  unfolding expunge_ids then_do invalidate
  expunge m =
      then_do (expunge_ids (api.range_order m.user.world ℕ m.pending_deleted) m)
        (λ m'. (ok, invalidate spec m'))

  -- `Status`.
  unfoldable pub status : Mailbox W → Option Counts × Mailbox W
  unfolding counts
  status m =
      let (loaded, u) = load_summaries api cfg spec m.user in
      let m' = record m { user = u } in
      elim loaded [ inl e ↦ (none, m') | inr sums ↦ (some (counts sums), m') ]
