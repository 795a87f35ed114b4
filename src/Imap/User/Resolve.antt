-- ===== src/Imap/User/Resolve.antt =====
-- The lookup of a mailbox name in internal/imapbackend/user.go.
use xyecoc_mailbridge.Base.{
  Option, none, some, [], ◌∷◌, Bytes, codes, eqb, is_empty, if◌then◌else◌, lookup,
}
use xyecoc_mailbridge.Text.{Unicode, to_lower, equal_fold, trim_space, has_prefix}
use xyecoc_mailbridge.Remote.{Api}
use xyecoc_mailbridge.Imap.Names.{MailboxSpec, parse_mailbox_name, mailbox_leaf}
use xyecoc_mailbridge.Imap.User.{Settings, Index, User, refresh_folder_tag_name_index}

-- The first entry whose name is equal but for the case of its letters.
unfoldable pub find_fold : Unicode → Bytes → Index → Option MailboxSpec
unfolding equal_fold
find_fold u name [] = none
find_fold u name ((k, spec) ∷ m) =
    let rest = find_fold u name m in if equal_fold u k name then some spec else rest

module _ {W : Type 0} (api : Api W) (cfg : Settings) where
  -- `resolveFromIndex` behind the refresh.
  unfoldable pub look_again : Bytes → User W → Option MailboxSpec
  unfolding find_fold
  look_again name u = elim (lookup name u.spec_by_list_name) [
    | some spec ↦ some spec
    | none ↦
        find_fold api.unicode name
          (api.range_order u.world (Bytes × MailboxSpec) u.spec_by_list_name)
  ]

  -- `resolveFromIndex`.
  unfoldable pub resolve_from_index : Bytes → User W → Option MailboxSpec × User W
  unfolding look_again
  resolve_from_index name u = elim (lookup name u.spec_by_list_name) [
    | some spec ↦ (some spec, u)
    | none ↦ let u' = refresh_folder_tag_name_index api cfg u in (look_again name u', u')
  ]

  -- `resolveMailboxSpecOnce` for a name that starts with "tag-", and for another name.
  unfoldable pub index_first : Bytes → User W → Option MailboxSpec × User W
  unfolding resolve_from_index
  index_first name u =
      let (found, u') = resolve_from_index name u in
      elim found [ none ↦ (parse_mailbox_name api.unicode name, u') | some spec ↦ (some spec, u') ]

  unfoldable pub parser_first : Bytes → User W → Option MailboxSpec × User W
  unfolding resolve_from_index
  parser_first name u = elim (parse_mailbox_name api.unicode name) [
    | some spec ↦ (some spec, u)
    | none ↦ resolve_from_index name u
  ]

  -- `resolveMailboxSpecOnce`; `none` is any of its errors.
  unfoldable pub resolve_mailbox_spec_once : Bytes → User W → Option MailboxSpec × User W
  unfolding index_first parser_first
  resolve_mailbox_spec_once candidate u =
      let name = trim_space candidate in
      if is_empty name
      then (none, u)
      else if has_prefix (to_lower api.unicode name) (codes "tag-")
      then index_first name u
      else parser_first name u

  -- The second round of the loop of `ResolveMailboxSpec`, for the last segment.
  unfoldable pub resolve_leaf :
      Bytes → Bytes → Option MailboxSpec × User W → Option MailboxSpec × User W
  unfolding resolve_mailbox_spec_once eqb
  resolve_leaf name leaf (some spec, u) = (some spec, u)
  resolve_leaf name leaf (none, u) =
      if is_empty leaf
      then (none, u)
      else if eqb leaf name
      then (none, u)
      else resolve_mailbox_spec_once leaf u

  -- `ResolveMailboxSpec`.
  unfoldable pub resolve_mailbox_spec : Bytes → User W → Option MailboxSpec × User W
  unfolding resolve_mailbox_spec_once resolve_leaf
  resolve_mailbox_spec name u =
      let n = trim_space name in
      if is_empty n
      then (none, u)
      else resolve_leaf n (trim_space (mailbox_leaf n)) (resolve_mailbox_spec_once n u)
