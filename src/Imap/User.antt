-- ===== src/Imap/User.antt =====
-- internal/imapbackend/user.go: the state of a logged-in user, the index of mailbox names and the
-- two caches. The mutexes only guard the maps and are not modelled.
pub mod Resolve
pub mod Change
pub mod Listed
pub mod Evicted
use mathlib.Core.List.{reverse}
use xyecoc_mailbridge.Base.{
  ℕ, Bool, ◌||◌, Option, none, some, List, [], ◌∷◌, ◌++◌, map, Bytes, codes, is_empty,
  if◌then◌else◌, ◌>>=◌, put, erase,
}
use xyecoc_mailbridge.Text.{itoa, trim_space, trim_prefix, has_prefix}
use xyecoc_mailbridge.Remote.{
  MailSummary, Folder, Tag, Response, is_one, Value, Request, request, Answer, answered,
  unreachable, Api,
}
use xyecoc_mailbridge.Imap.Names.{
  MailboxSpec, spec_of, spec_cache_key, canonical_name, unique_display_name,
  unique_tag_display_name,
}

-- The fields of `User` that nothing changes, and `lang` of its client.
pub record Settings : Type 0 where
  pub email : Bytes
  pub max_list : ℕ
  pub default_lang : Bytes
  pub view_lang : Bytes
  pub compose_lang : Bytes
  pub tag_color : Bytes
  pub client_lang : Bytes

abbrev pub or_default : Bytes → Bytes → Bytes
or_default s d = if is_empty s then d else s

-- What `newUser` makes of its arguments.
unfoldable pub settings : Settings → Settings
settings c = record {
  email = c.email;
  max_list = c.max_list;
  default_lang = or_default c.default_lang (codes "inbox");
  view_lang = or_default c.view_lang (codes "mail");
  compose_lang = or_default c.compose_lang (codes "mail");
  tag_color = trim_prefix (trim_space (or_default c.tag_color (codes "ADACF1"))) (codes "#");
  client_lang = c.client_lang;
}

pub record SummaryCache : Type 0 where
  pub at : ℕ
  pub summaries : List MailSummary

-- `specByListName`.
abbrev pub Index : Type 0
Index = List (Bytes × MailboxSpec)

pub record User (W : Type 0) : Type 0 where
  pub world : W
  pub list_cache : List (Bytes × SummaryCache)
  pub spec_by_list_name : Index

-- The standard mailboxes with their names, as `ParseMailboxName` gives them.
abbrev pub standard : Index
standard =
    (codes "INBOX", spec_of (codes "inbox"))
    ∷ (codes "Sent", spec_of (codes "sent"))
    ∷ (codes "Drafts", spec_of (codes "draft"))
    ∷ (codes "Junk", spec_of (codes "spam"))
    ∷ (codes "Trash", spec_of (codes "trash"))
    ∷ (codes "Important", spec_of (codes "important"))
    ∷ []

-- The variables of `rebuildMailboxNameIndex`; `extras` is kept backwards.
pub record Rebuilt : Type 0 where
  pub index : Index
  pub occupied : List Bytes
  pub extras : Index

abbrev pub names : Index → List Bytes
names = map (λ (e : Bytes × MailboxSpec). e.0)

unfoldable pub initial : Rebuilt
initial = record { index = standard; occupied = reverse (names standard); extras = [] }

-- The body of the loops; `none` for a name means that its loop ran out of fuel.
unfoldable pub add_entry : MailboxSpec → Option (Bytes × List Bytes) → Rebuilt → Option Rebuilt
add_entry spec none r = none
add_entry spec (some (disp, occupied)) r = some (record {
  index = put (canonical_name spec) spec (put disp spec r.index);
  occupied = occupied;
  extras = (disp, spec) ∷ r.extras;
})

abbrev pub folder_spec : Folder → MailboxSpec
folder_spec f = record { param1 = codes "folders"; param2 = itoa f.id }

abbrev pub tag_spec : Tag → MailboxSpec
tag_spec t = record { param1 = codes "tags"; param2 = itoa t.id }

module _ {W : Type 0} (api : Api W) (cfg : Settings) where
  unfoldable pub add_folder : Folder → Rebuilt → Option Rebuilt
  unfolding add_entry
  add_folder f r =
      add_entry (folder_spec f) (unique_display_name api.unicode f.name (folder_spec f) r.occupied)
        r

  unfoldable pub add_tag : Tag → Rebuilt → Option Rebuilt
  unfolding add_entry
  add_tag t r =
      add_entry (tag_spec t) (unique_tag_display_name api.unicode t.name (tag_spec t) r.occupied) r

  unfoldable pub add_folders : List Folder → Rebuilt → Option Rebuilt
  unfolding add_folder
  add_folders [] r = some r
  add_folders (f ∷ fs) r = do r' ← add_folder f r; add_folders fs r'

  unfoldable pub add_tags : List Tag → Rebuilt → Option Rebuilt
  unfolding add_tag
  add_tags [] r = some r
  add_tags (t ∷ ts) r = do r' ← add_tag t r; add_tags ts r'

  -- The loops of `rebuildMailboxNameIndex`.
  unfoldable pub rebuild : Response → Option Rebuilt
  unfolding add_folders add_tags initial
  rebuild resp = do r ← add_folders resp.folders initial; add_tags resp.tags r

  -- `rebuildMailboxNameIndex`, with the mailboxes of the API in its order.
  unfoldable pub rebuild_mailbox_name_index : Option Response → User W → Index × User W
  unfolding rebuild
  rebuild_mailbox_name_index none u = ([], record u { spec_by_list_name = standard })
  rebuild_mailbox_name_index (some resp) u = elim (rebuild resp) [
    | none ↦ ([], u)
    | some r ↦ (reverse r.extras, record u { spec_by_list_name = r.index })
  ]

  unfoldable pub call : Request → User W → Answer × User W
  call req u = let (a, w) = api.perform req u.world in (a, record u { world = w })

  unfoldable pub folders_tags : Request
  folders_tags = request (codes "account") (codes "folders_tags") []

  -- The answer of `folders_tags`, where there is one with status 1.
  unfoldable pub listing : Answer → Option Response
  unfolding is_one
  listing (unreachable e) = none
  listing (answered r) = if is_one r.status then some r else none

  -- `ListMailboxes`: the names and their mailboxes.
  unfoldable pub list_mailboxes : User W → Index × User W
  unfolding call listing rebuild_mailbox_name_index
  list_mailboxes u =
      let (a, u1) = call folders_tags u in
      let (extras, u2) = rebuild_mailbox_name_index (listing a) u1 in (standard ++ extras, u2)

  -- `refreshFolderTagNameIndex`.
  unfoldable pub refresh_folder_tag_name_index : User W → User W
  unfolding call listing rebuild_mailbox_name_index
  refresh_folder_tag_name_index u =
      let (a, u1) = call folders_tags u in
      elim (listing a) [ none ↦ u1 | some resp ↦ (rebuild_mailbox_name_index (some resp) u1).1 ]

  -- `invalidateSpec`.
  unfoldable pub invalidate_spec : MailboxSpec → User W → User W
  invalidate_spec spec u = record u { list_cache = erase (spec_cache_key spec) u.list_cache }

  unfoldable pub without_folders_tags : List (Bytes × SummaryCache) → List (Bytes × SummaryCache)
  without_folders_tags [] = []
  without_folders_tags ((k, c) ∷ m) =
      let rest = without_folders_tags m in
      if has_prefix k (codes "folders/") || has_prefix k (codes "tags/")
      then rest
      else (k, c) ∷ rest

  -- `invalidateFolderTagListCaches`.
  unfoldable pub invalidate_folder_tag_list_caches : User W → User W
  unfolding without_folders_tags
  invalidate_folder_tag_list_caches u = record u { list_cache = without_folders_tags u.list_cache }
