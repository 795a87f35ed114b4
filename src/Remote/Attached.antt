-- ===== src/Remote/Attached.antt =====
-- internal/remote/attachment_download.go: the download of an attachment.
use xyecoc_mailbridge.Base.{
  Bool, true, false, Option, none, some, List, [], ◌∷◌, ◌++◌, Bytes, codes, is_empty, if◌then◌else◌,
  ◌⊎◌, inl, inr, ◌≡◌, refl, Any, ap, Bool-cases, sym, ◌∙◌,
}
use xyecoc_mailbridge.Text.{Unicode, ℤ, itoa, trim_space}
use xyecoc_mailbridge.Remote.{Attachment}
use xyecoc_mailbridge.Remote.Client.{Client, Http, download_get}
use xyecoc_mailbridge.Remote.Urls.{
  attachment_http_origins, resolve_maybe_relative_url, attachment_url_candidates,
}

-- A URL without and with the bearer token, in this order.
unfoldable pub both_ways : List Bytes → List (Bytes × Bool)
both_ways [] = []
both_ways (u ∷ us) = (u, false) ∷ (u, true) ∷ both_ways us

-- The URLs for the field `url`, one for each origin.
unfoldable pub field_urls : Bytes → List Bytes → List Bytes
unfolding resolve_maybe_relative_url
field_urls ref [] = []
field_urls ref (o ∷ os) =
    let full = resolve_maybe_relative_url ref o in
    let rest = field_urls ref os in if is_empty full then rest else full ∷ rest

unfoldable pub candidate_urls :
    (Bytes → Bytes) → Unicode → Client → List Bytes → Attachment → Bytes → ℤ → List Bytes
unfolding attachment_url_candidates
candidate_urls query_escape u c [] a created id = []
candidate_urls query_escape u c (b ∷ bs) a created id =
    attachment_url_candidates query_escape u b a c.token created id
    ++ candidate_urls query_escape u c bs a created id

-- What was decoded, where it is not empty.
unfoldable pub kept : Option Bytes → Option Bytes
kept none = none
kept (some []) = none
kept (some (x ∷ b)) = some (x ∷ b)

kept-full : (o : Option Bytes) (b : Bytes) → kept o ≡ some b → is_empty b ≡ false
unfolding kept
kept-full none b h = absurd (cc h)
kept-full (some []) b h = absurd (cc h)
kept-full (some (x ∷ d)) b h = let same : x ∷ d ≡ b = cc h in ap is_empty (sym same)

module _ {W : Type 0} (http : Http W) (u : Unicode) where
  -- `DecodeAttachmentContent`, where the content is not blank and what is decoded is not empty.
  unfoldable pub inline_content : Attachment → Option Bytes
  unfolding trim_space kept
  inline_content a = if is_empty (trim_space a.content) then none else kept (http.decode a.content)

  -- Downloads until one of the URLs gives something; the left is `lastErr`.
  unfoldable pub try_urls :
      Client → List (Bytes × Bool) → Option Bytes → W → (Option Bytes ⊎ Bytes) × W
  unfolding download_get
  try_urls c [] last w = (inl last, w)
  try_urls c ((url, bearer) ∷ more) last w =
      let (r, w') = download_get http c url bearer w in
      elim r [
        | inl e ↦ try_urls c more (some e) w'
        | inr [] ↦ try_urls c more none w'
        | inr (x ∷ b) ↦ (inr (x ∷ b), w')
      ]

  -- The second half of `GetAttachmentBytes`; the left is an error.
  unfoldable pub report : Attachment → (Option Bytes ⊎ Bytes) × W → (Bytes ⊎ Bytes) × W
  unfolding itoa
  report a (inr b, w) = (inr b, w)
  report a (inl (some e), w) = (inl e, w)
  report a (inl none, w) = (inl (codes "empty attachment body for id=" ++ itoa a.id), w)

  -- The tries for the field `url`, and those for the other URLs.
  unfoldable pub field_tries : Client → Attachment → List (Bytes × Bool)
  unfolding both_ways field_urls attachment_http_origins
  field_tries c a =
      let ref = trim_space a.url in
      if is_empty ref then [] else both_ways (field_urls ref (attachment_http_origins c))

  unfoldable pub candidate_tries : Client → Attachment → ℤ → Bytes → List (Bytes × Bool)
  unfolding both_ways candidate_urls attachment_http_origins
  candidate_tries c a id created =
      both_ways (candidate_urls http.query_escape u c (attachment_http_origins c) a created id)

  unfoldable pub after_field :
      Client → Attachment → ℤ → Bytes → (Option Bytes ⊎ Bytes) × W → (Bytes ⊎ Bytes) × W
  unfolding report try_urls candidate_tries
  after_field c a id created (inr b, w) = (inr b, w)
  after_field c a id created (inl e, w) =
      report a (try_urls c (candidate_tries c a id created) none w)

  -- `GetAttachmentBytes`.
  unfoldable pub get_attachment_bytes : Client → Attachment → ℤ → Bytes → W → (Bytes ⊎ Bytes) × W
  unfolding inline_content after_field try_urls field_tries
  get_attachment_bytes c a id created w =
      let downloaded = after_field c a id created (try_urls c (field_tries c a) none w) in
      elim (inline_content a) [ some b ↦ (inr b, w) | none ↦ downloaded ]

  -- One of the tries gave these bytes.
  unfoldable pub Downloaded : Client → List (Bytes × Bool) → Bytes → Type 0
  Downloaded c tries b =
      Any (λ (t : Bytes × Bool). (v : W) × ((download_get http c t.0 t.1 v).0 ≡ inr b)) tries

  -- Where the bytes of an attachment come from, where there are any.
  unfoldable pub Sourced : Client → Attachment → ℤ → Bytes → Bytes ⊎ Bytes → Type 0
  Sourced c a id created (inl e) = Unit
  Sourced c a id created (inr b) =
      (is_empty b ≡ false)
      × ((inline_content a ≡ some b)
          ⊎ (Downloaded c (field_tries c a) b ⊎ Downloaded c (candidate_tries c a id created) b))

  try_urls-Downloaded :
      (c : Client) (tries : List (Bytes × Bool)) (last : Option Bytes) (w : W) (b : Bytes)
      → (try_urls c tries last w).0 ≡ inr b
      → (is_empty b ≡ false) × Downloaded c tries b
  unfolding try_urls Downloaded
  try_urls-Downloaded c [] last w b h = absurd (cc h)
  try_urls-Downloaded c ((url, bearer) ∷ more) last w b h =
      go (download_get http c url bearer w).0 refl (try_urls-Downloaded c more) h
    where
      go :
          (r : Bytes ⊎ Bytes)
          → (download_get http c url bearer w).0 ≡ r
          → ((last : Option Bytes) (v : W) (b : Bytes)
              → (try_urls c more last v).0 ≡ inr b
              → (is_empty b ≡ false) × Downloaded c more b)
          → (try_urls c ((url, bearer) ∷ more) last w).0 ≡ inr b
          → (is_empty b ≡ false) × Downloaded c ((url, bearer) ∷ more) b
      go (inl f) e later =
          rw (try_urls, e) (λ k. let (full, d) = later (some f) _ b k in (full, inr d))
      go (inr []) e later =
          rw (try_urls, e) (λ k. let (full, d) = later none _ b k in (full, inr d))
      go (inr (x ∷ d)) e later =
          rw (try_urls, e) (λ k. (ap is_empty (sym (same k)), inl (w, e ∙ ap inr (same k))))
        where
          same : Path (Option Bytes ⊎ Bytes) (inr (x ∷ d)) (inr b) → x ∷ d ≡ b
          same k = cc k

  report-Sourced :
      (c : Client) (a : Attachment) (id : ℤ) (created : Bytes) (r : (Option Bytes ⊎ Bytes) × W)
      → ((b : Bytes)
          → r.0 ≡ inr b
          → (is_empty b ≡ false) × Downloaded c (candidate_tries c a id created) b)
      → Sourced c a id created (report a r).0
  unfolding report Sourced
  report-Sourced c a id created (inr b, w) h = let (full, d) = h b refl in (full, inr (inr d))
  report-Sourced c a id created (inl (some e), w) h = tt
  report-Sourced c a id created (inl none, w) h = tt

  after_field-Sourced :
      (c : Client) (a : Attachment) (id : ℤ) (created : Bytes) (r : (Option Bytes ⊎ Bytes) × W)
      → ((b : Bytes) → r.0 ≡ inr b → (is_empty b ≡ false) × Downloaded c (field_tries c a) b)
      → Sourced c a id created (after_field c a id created r).0
  unfolding after_field Sourced
  after_field-Sourced c a id created (inr b, w) h = let (full, d) = h b refl in (full, inr (inl d))
  after_field-Sourced c a id created (inl e, w) h =
      report-Sourced c a id created _
        (try_urls-Downloaded c (candidate_tries c a id created) none w)

  inline_content-full :
      (a : Attachment) (b : Bytes) → inline_content a ≡ some b → is_empty b ≡ false
  unfolding inline_content
  inline_content-full a b = elim (Bool-cases (is_empty (trim_space a.content))) [
    | inl e ↦ rw (inline_content, e) (λ h. absurd (cc h))
    | inr e ↦ rw (inline_content, e) (kept-full (http.decode a.content) b)
  ]

  -- The bytes that are returned for an attachment are never empty: they are the content that the
  -- API sent along, or a GET of one of the URLs to try answered with them.
  pub get_attachment_bytes-Sourced :
      (c : Client) (a : Attachment) (id : ℤ) (created : Bytes) (w : W)
      → Sourced c a id created (get_attachment_bytes c a id created w).0
  unfolding get_attachment_bytes
  get_attachment_bytes-Sourced c a id created w = go (inline_content a) refl
    where
      go :
          (o : Option Bytes)
          → inline_content a ≡ o
          → Sourced c a id created (get_attachment_bytes c a id created w).0
      go (some b) e =
          rw (get_attachment_bytes, e) (unfold Sourced in (inline_content-full a b e, inl e))
      go none e =
          rw (get_attachment_bytes, e)
            (after_field-Sourced c a id created _ (try_urls-Downloaded c (field_tries c a) none w))
