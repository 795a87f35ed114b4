-- ===== src/Imap/User/Evicted.antt =====
-- CREATE, DELETE and RENAME in internal/imapbackend/user.go and the cached lists.
use xyecoc_mailbridge.Base.{
  Bool, true, false, not, ◌||◌, Option, none, some, List, [], ◌∷◌, Bytes, codes, is_empty,
  if◌then◌else◌, ◌≡◌, refl, ap, All, Bool-cases, inl, inr,
}
use xyecoc_mailbridge.Text.{has_prefix, ℤ}
use xyecoc_mailbridge.Remote.{
  Request, Value, Response, Answer, answered, unreachable, mail_mutation_ok, Api,
}
use xyecoc_mailbridge.Imap.Names.{MailboxSpec}
use xyecoc_mailbridge.Imap.User.{
  Settings, SummaryCache, User, call, folders_tags, listing, rebuild, rebuild_mailbox_name_index,
  refresh_folder_tag_name_index, invalidate_spec, without_folders_tags,
  invalidate_folder_tag_list_caches,
}
use xyecoc_mailbridge.Imap.User.Resolve.{resolve_mailbox_spec}
use xyecoc_mailbridge.Imap.User.Change.{
  Status, ok, bad_name, no_such_mailbox, unsupported, delete_request, already_exists, refused,
  refresh, create_fault, folder_new_looks_duplicate, create_chosen, delete_id, delete_found, mutate,
  create, create_mailbox, delete_spec, delete_mailbox, positive_id, is_folder_or_tag,
}

-- Does the key stand for a list of a folder or of a tag?
abbrev pub is_extra : Bytes → Bool
is_extra k = has_prefix k (codes "folders/") || has_prefix k (codes "tags/")

-- No list of a folder or of a tag is cached.
unfoldable pub NoExtras : List (Bytes × SummaryCache) → Type 0
NoExtras = All λ e. is_extra e.0 ≡ false

without_folders_tags-NoExtras :
    {W : Type 0} (api : Api W) (cfg : Settings) (m : List (Bytes × SummaryCache))
    → NoExtras (without_folders_tags api cfg m)
unfolding without_folders_tags NoExtras
without_folders_tags-NoExtras api cfg [] = tt
without_folders_tags-NoExtras api cfg ((k, c) ∷ m) = elim (Bool-cases (is_extra k)) [
  | inl e ↦ rw e (without_folders_tags-NoExtras api cfg m)
  | inr e ↦ rw e (e, without_folders_tags-NoExtras api cfg m)
]

module _ {W : Type 0} (api : Api W) (cfg : Settings) where
  rebuild-list_cache :
      (r : Response) (u : User W)
      → (rebuild_mailbox_name_index api cfg (some r) u).1.list_cache ≡ u.list_cache
  unfolding rebuild_mailbox_name_index
  rebuild-list_cache r u = go (rebuild api cfg r) refl
    where
      go :
          (o : _)
          → rebuild api cfg r ≡ o
          → (rebuild_mailbox_name_index api cfg (some r) u).1.list_cache ≡ u.list_cache
      go none e = rw (rebuild_mailbox_name_index, e) refl
      go (some x) e = rw (rebuild_mailbox_name_index, e) refl

  refresh-list_cache :
      (u : User W) → (refresh_folder_tag_name_index api cfg u).list_cache ≡ u.list_cache
  unfolding refresh_folder_tag_name_index call
  refresh-list_cache u = go (listing api cfg (api.perform (folders_tags api cfg) u.world).0) refl
    where
      go :
          (o : Option Response)
          → listing api cfg (api.perform (folders_tags api cfg) u.world).0 ≡ o
          → (refresh_folder_tag_name_index api cfg u).list_cache ≡ u.list_cache
      go none e = rw (refresh_folder_tag_name_index, e) refl
      go (some r) e = rw (refresh_folder_tag_name_index, e) (rebuild-list_cache r _)

  refresh-NoExtras : (u : User W) → NoExtras (refresh api cfg u).list_cache
  unfolding refresh invalidate_folder_tag_list_caches
  refresh-NoExtras u =
      rw (refresh-list_cache (invalidate_folder_tag_list_caches api cfg u))
        (without_folders_tags-NoExtras api cfg u.list_cache)

  -- A command that reports success leaves no list of a folder or of a tag in the cache.
  unfoldable pub Evicts : Status × User W → Type 0
  Evicts r = r.0 ≡ ok → NoExtras r.1.list_cache

  error-Evicts : (st : Status) (u : User W) → (st ≡ ok → ⊥) → Evicts (st, u)
  unfolding Evicts
  error-Evicts st u h = λ q. absurd (h q)

  if-Evicts : (b : Bool) (x y : Status × User W) → Evicts x → Evicts y → Evicts (if b then x else y)
  if-Evicts true x y hx hy = hx
  if-Evicts false x y hx hy = hy

  mutate-Evicts :
      (req : Request) (drop : User W → User W) (fault : Bytes → Status) (u : User W)
      → ((msg : Bytes) → fault msg ≡ ok → ⊥)
      → Evicts (mutate api cfg req drop fault u)
  unfolding mutate Evicts
  mutate-Evicts req drop fault u h = go (call api cfg req u).0 refl
    where
      go : (a : Answer) → (call api cfg req u).0 ≡ a → Evicts (mutate api cfg req drop fault u)
      go (unreachable t) e = rw (mutate, e) (λ q. absurd (cc q))
      go (answered r) e = elim (Bool-cases (mail_mutation_ok api.json api.unicode r)) [
        | inl good ↦ rw (mutate, e, good) (λ q. refresh-NoExtras (drop (call api cfg req u).1))
        | inr bad ↦ rw (mutate, e, bad) (λ q. absurd (h _ q))
      ]

  create_fault-ne-ok : (action msg : Bytes) → create_fault api cfg action msg ≡ ok → ⊥
  unfolding create_fault
  create_fault-ne-ok action msg q = elim (Bool-cases (folder_new_looks_duplicate api.unicode msg)) [
    | inl e ↦ cc (ap (λ (b : Bool). if b then already_exists else refused action msg) e, q)
    | inr e ↦ cc (ap (λ (b : Bool). if b then already_exists else refused action msg) e, q)
  ]

  create-Evicts :
      (action name : Bytes) (fields : List (Bytes × Value)) (u : User W)
      → Evicts (create api cfg action name fields u)
  unfolding create
  create-Evicts action name fields u =
      if-Evicts _ _ _ (error-Evicts already_exists _ (λ q. cc q))
        (mutate-Evicts _ (λ v. v) _ _ (create_fault-ne-ok action))

  create_chosen-Evicts :
      (tag folder : Option Bytes) (u : User W) → Evicts (create_chosen api cfg tag folder u)
  unfolding create_chosen
  create_chosen-Evicts (some label) folder u = create-Evicts _ label _ u
  create_chosen-Evicts none (some leaf) u = create-Evicts _ leaf _ u
  create_chosen-Evicts none none u = error-Evicts bad_name u (λ q. cc q)

  -- When `CreateMailbox` reports success, no list of a folder or of a tag is left in the cache.
  pub create_mailbox-NoExtras :
      (name : Bytes) (u : User W)
      → (create_mailbox api cfg name u).0 ≡ ok
      → NoExtras (create_mailbox api cfg name u).1.list_cache
  unfolding create_mailbox Evicts
  create_mailbox-NoExtras name u = create_chosen-Evicts _ _ u

  delete_id-Evicts :
      (spec : MailboxSpec) (id : Option ℤ) (u : User W) → Evicts (delete_id api cfg spec id u)
  unfolding delete_id
  delete_id-Evicts spec none u = error-Evicts no_such_mailbox u (λ q. cc q)
  delete_id-Evicts spec (some id) u =
      mutate-Evicts _ (invalidate_spec api cfg spec)
        (refused (delete_request api cfg spec id).action) u
        (λ msg (q : refused (delete_request api cfg spec id).action msg ≡ ok). absurd (cc q))

  delete_found-Evicts :
      (spec : Option MailboxSpec) (u : User W) → Evicts (delete_found api cfg spec u)
  unfolding delete_found delete_spec
  delete_found-Evicts none u = error-Evicts no_such_mailbox u (λ q. cc q)
  delete_found-Evicts (some spec) u =
      if-Evicts (is_empty spec.param2 || not (is_folder_or_tag spec)) (unsupported, u) _
        (error-Evicts unsupported u (λ q. cc q)) (delete_id-Evicts spec (positive_id spec.param2) u)

  -- When `DeleteMailbox` reports success, no list of a folder or of a tag is left in the cache.
  pub delete_mailbox-NoExtras :
      (name : Bytes) (u : User W)
      → (delete_mailbox api cfg name u).0 ≡ ok
      → NoExtras (delete_mailbox api cfg name u).1.list_cache
  unfolding delete_mailbox Evicts
  delete_mailbox-NoExtras name u =
      delete_found-Evicts (resolve_mailbox_spec api cfg name u).0
        (resolve_mailbox_spec api cfg name u).1
