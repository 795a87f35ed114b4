-- ===== src/Imap/User/Change.antt =====
-- CREATE, DELETE and RENAME in internal/imapbackend/user.go.
use xyecoc_mailbridge.Base.{
  zero, suc, Bool, false, not, ◌||◌, Option, none, some, List, [], ◌∷◌, Bytes, codes, eqb, is_empty,
  if◌then◌else◌, ◌==◌,
}
use xyecoc_mailbridge.Text.{ℤ, pos, negsuc, atoi, Unicode, to_lower, trim_space, contains}
use xyecoc_mailbridge.Remote.{
  Folder, Response, Value, text, number, Request, request, answered, unreachable, mail_mutation_ok,
  response_err_msg, Api,
}
use xyecoc_mailbridge.Imap.Names.{MailboxSpec, tag_create_display_name, folder_name_for_api}
use xyecoc_mailbridge.Imap.User.{
  Settings, User, call, folders_tags, listing, invalidate_spec, invalidate_folder_tag_list_caches,
  refresh_folder_tag_name_index, or_default,
}
use xyecoc_mailbridge.Imap.User.Resolve.{resolve_mailbox_spec}

-- The error that a command returns; `ok` is none.
pub data Status : Type 0 where
  ok no_such_mailbox already_exists bad_name unsupported : Status
  api_error : Bytes → Status
  refused : Bytes → Bytes → Status

unfoldable pub same : ℤ → ℤ → Bool
same (pos m) (pos n) = m == n
same (negsuc m) (negsuc n) = m == n
same (pos m) (negsuc n) = false
same (negsuc m) (pos n) = false

-- The id of a folder or a tag, where it is a positive number.
unfoldable pub positive_id : Bytes → Option ℤ
positive_id s = elim (atoi s) [
  | none ↦ none
  | some (negsuc n) ↦ none
  | some (pos zero) ↦ none
  | some (pos (suc n)) ↦ some (pos (suc n))
]

-- `folderNewLooksDuplicate`.
unfoldable pub folder_new_looks_duplicate : Unicode → Bytes → Bool
folder_new_looks_duplicate u msg =
    let m = to_lower u msg in
    contains m (codes "exist")
    || contains m (codes "duplicate")
    || contains m (codes "already")
    || contains m (codes "same")
    || contains m (0xD1 ∷ 0x83 ∷ 0xD0 ∷ 0xB6 ∷ 0xD0 ∷ 0xB5 ∷ [])

unfoldable pub is_folder_or_tag : MailboxSpec → Bool
unfolding eqb
is_folder_or_tag spec = eqb spec.param1 (codes "folders") || eqb spec.param1 (codes "tags")

unfoldable pub find_folder : ℤ → List Folder → Option Folder
unfolding same
find_folder id [] = none
find_folder id (f ∷ fs) = let rest = find_folder id fs in if same f.id id then some f else rest

module _ {W : Type 0} (api : Api W) (cfg : Settings) where
  -- The text of an answer that is not a success.
  unfoldable pub failure_text : Response → Bytes
  failure_text r =
      let msg = trim_space (response_err_msg api.json r) in
      if is_empty msg then trim_space r.message else msg

  -- What stands behind every mutation that succeeds.
  unfoldable pub refresh : User W → User W
  refresh u = refresh_folder_tag_name_index api cfg (invalidate_folder_tag_list_caches api cfg u)

  -- A mutation: the call, and what stands behind its answer. `drop` is done first on success,
  -- and `fault` turns the text of a refusal into the error.
  unfoldable pub mutate : Request → (User W → User W) → (Bytes → Status) → User W → Status × User W
  unfolding failure_text refresh
  mutate req drop fault u =
      let (a, u') = call api cfg req u in
      elim a [
        | unreachable e ↦ (api_error e, u')
        | answered r ↦
            if mail_mutation_ok api.json api.unicode r
            then (ok, refresh (drop u'))
            else (fault (failure_text r), u')
      ]

  -- The error of a refused creation.
  unfoldable pub create_fault : Bytes → Bytes → Status
  unfolding folder_new_looks_duplicate
  create_fault action msg =
      if folder_new_looks_duplicate api.unicode msg then already_exists else refused action msg

  -- `CreateMailbox` behind the choice of the kind, which is `action`.
  unfoldable pub create : Bytes → Bytes → List (Bytes × Value) → User W → Status × User W
  unfolding mutate create_fault is_folder_or_tag
  create action name fields u =
      let (found, u1) =
        resolve_mailbox_spec api cfg name (refresh_folder_tag_name_index api cfg u) in
      if elim found [ none ↦ false | some spec ↦ is_folder_or_tag spec ]
      then (already_exists, u1)
      else mutate (record (request (codes "mail") action cfg.view_lang) { fields = fields })
          (λ v. v) (create_fault action) u1

  -- `CreateMailbox` for the name of a tag, or else of a folder.
  unfoldable pub create_chosen : Option Bytes → Option Bytes → User W → Status × User W
  unfolding create
  create_chosen (some label) folder u =
      create (codes "tag-new") label
        ((codes "name", text label) ∷ (codes "color", text cfg.tag_color) ∷ []) u
  create_chosen none (some leaf) u =
      create (codes "folder-new") leaf ((codes "name", text leaf) ∷ []) u
  create_chosen none none u = (bad_name, u)

  -- `CreateMailbox`.
  unfoldable pub create_mailbox : Bytes → User W → Status × User W
  unfolding create_chosen
  create_mailbox name =
      create_chosen (tag_create_display_name api.unicode name)
        (folder_name_for_api api.unicode name)

  -- `remoteAccountLang`.
  unfoldable pub remote_account_lang : Bytes
  remote_account_lang = or_default (trim_space cfg.client_lang) (codes "ru")

  -- The request of `DeleteMailbox`.
  unfoldable pub delete_request : MailboxSpec → ℤ → Request
  unfolding eqb remote_account_lang
  delete_request spec id =
      if eqb spec.param1 (codes "tags")
      then record (request (codes "mail") (codes "tag-delete") cfg.view_lang) {
        fields = (codes "id", number id) ∷ [];
      }
      else record (request (codes "mail") (codes "folder-delete") remote_account_lang) {
        fields = (codes "id", number id) ∷ (codes "folder_id", number id) ∷ [];
      }

  unfoldable pub delete_id : MailboxSpec → Option ℤ → User W → Status × User W
  unfolding delete_request mutate
  delete_id spec none u = (no_such_mailbox, u)
  delete_id spec (some id) u =
      let req = delete_request spec id in
      mutate req (invalidate_spec api cfg spec) (refused req.action) u

  unfoldable pub delete_spec : MailboxSpec → User W → Status × User W
  unfolding is_folder_or_tag positive_id delete_id
  delete_spec spec u =
      if is_empty spec.param2 || not (is_folder_or_tag spec)
      then (unsupported, u)
      else delete_id spec (positive_id spec.param2) u

  unfoldable pub delete_found : Option MailboxSpec → User W → Status × User W
  unfolding delete_spec
  delete_found none u = (no_such_mailbox, u)
  delete_found (some spec) u = delete_spec spec u

  -- `DeleteMailbox`.
  unfoldable pub delete_mailbox : Bytes → User W → Status × User W
  unfolding delete_found
  delete_mailbox name u =
      let (found, u') = resolve_mailbox_spec api cfg name u in delete_found found u'

  -- `folderByID`.
  unfoldable pub folder_by_id : ℤ → User W → Option Folder × User W
  unfolding find_folder
  folder_by_id id u =
      let (a, u') = call api cfg (folders_tags api cfg) u in
      elim (listing api cfg a) [ none ↦ (none, u') | some r ↦ (find_folder id r.folders, u') ]

  -- `RenameMailbox` behind the lookup of the folder.
  unfoldable pub rename_folder : MailboxSpec → ℤ → Bytes → Option Folder × User W → Status × User W
  unfolding mutate eqb
  rename_folder spec id name (none, u) = (no_such_mailbox, u)
  rename_folder spec id name (some f, u) =
      if eqb (trim_space f.name) (trim_space name)
      then (ok, u)
      else mutate
          (record (request (codes "mail") (codes "folder-edit") cfg.view_lang) {
            fields =
                (codes "id", number id)
                ∷ (codes "name", text name)
                ∷ (codes "from", text f.from)
                ∷ (codes "contains", text f.contains)
                ∷ [];
          })
          (invalidate_spec api cfg spec) (refused (codes "folder-edit")) u

  unfoldable pub rename_spec : MailboxSpec → Bytes → User W → Status × User W
  unfolding eqb positive_id folder_by_id rename_folder
  rename_spec spec new_name u =
      if not (eqb spec.param1 (codes "folders")) || is_empty spec.param2
      then (unsupported, u)
      else elim (positive_id spec.param2) [
        | none ↦ (no_such_mailbox, u)
        | some id ↦ elim (folder_name_for_api api.unicode new_name) [
          | none ↦ (bad_name, u)
          | some name ↦ rename_folder spec id name (folder_by_id id u)
        ]
      ]

  -- `RenameMailbox`.
  unfoldable pub rename_mailbox : Bytes → Bytes → User W → Status × User W
  unfolding rename_spec
  rename_mailbox existing new_name u =
      let (found, u') = resolve_mailbox_spec api cfg existing u in
      elim found [ none ↦ (no_such_mailbox, u') | some spec ↦ rename_spec spec new_name u' ]
