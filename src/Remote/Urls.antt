-- ===== src/Remote/Urls.antt =====
-- The URLs of attachments in internal/remote/client.go and internal/remote/attachment_download.go.
use xyecoc_mailbridge.Base.{
  ℕ, Bool, false, not, ◌&&◌, ◌||◌, Option, none, some, List, [], ◌∷◌, ◌++◌, Bytes, codes, eqb,
  is_empty, if◌then◌else◌, length, leb, ◌==◌,
}
use xyecoc_mailbridge.Text.{
  Unicode, to_lower, ℤ, pos, negsuc, itoa, trim_space, trim_right, trim_prefix, has_prefix,
  cut_byte,
}
use xyecoc_mailbridge.Remote.{Attachment}
use xyecoc_mailbridge.Remote.Client.{Client, mail_asset_origin, attachment_origin}

-- The date in front of a time, cut at `T` or else at a space.
unfoldable pub day_of : Bytes → Bytes
unfolding cut_byte trim_space
day_of s = elim (cut_byte b'T' s) [
  | some (a, b) ↦ trim_space a
  | none ↦ elim (cut_byte b' ' s) [ some (a, b) ↦ trim_space a | none ↦ trim_space s ]
]

-- The loop of `attachmentPathDay`.
unfoldable pub first_day : List Bytes → Bytes
unfolding day_of
first_day [] = codes "1970-01-01"
first_day (x ∷ xs) =
    let s = trim_space x in
    let rest = first_day xs in
    if is_empty s then rest else if leb 8 (length (day_of s)) then day_of s else rest

-- `attachmentPathDay`.
unfoldable pub attachment_path_day : Bytes → Bytes → Bytes
unfolding first_day
attachment_path_day att_created mail_created = first_day (att_created ∷ mail_created ∷ [])

-- What stands behind the last `c`.
unfoldable pub behind_last : ℕ → Bytes → Option Bytes
behind_last c [] = none
behind_last c (x ∷ xs) = elim (behind_last c xs) [
  | some rest ↦ some rest
  | none ↦ if x == c then some xs else none
]

-- `attachmentPathExt`.
unfoldable pub ext_of_name : Unicode → Option Bytes → Bytes
unfolding to_lower trim_space
ext_of_name u none = codes "bin"
ext_of_name u (some rest) = if is_empty rest then codes "bin" else to_lower u (trim_space rest)

unfoldable pub attachment_path_ext : Unicode → Attachment → Bytes
unfolding to_lower trim_space trim_prefix behind_last ext_of_name
attachment_path_ext u a =
    let ext = trim_prefix (trim_space (to_lower u a.extension)) (codes ".") in
    if not (is_empty ext) then ext else ext_of_name u (behind_last b'.' (trim_space a.file_name))

-- Is the string in the list?
unfoldable pub listed : Bytes → List Bytes → Bool
unfolding eqb
listed s [] = false
listed s (t ∷ ts) = eqb t s || listed s ts

-- `add` of `AttachmentURLCandidates` and, for strings that are not empty, of
-- `attachmentHTTPOrigins`, with `out` for `seen`, as they hold the same strings.
unfoldable pub add : Bytes → List Bytes → List Bytes
unfolding listed
add s out = if listed s out then out else out ++ s ∷ []

unfoldable pub add_nonempty : Bytes → List Bytes → List Bytes
unfolding add
add_nonempty s out = if is_empty s then out else add s out

-- `attachmentHTTPOrigins`.
unfoldable pub attachment_http_origins : Client → List Bytes
unfolding add_nonempty mail_asset_origin attachment_origin trim_right
attachment_http_origins c =
    add_nonempty (trim_right b'/' (attachment_origin c))
      (add_nonempty (trim_right b'/' (mail_asset_origin c)) [])

-- `resolveMaybeRelativeURL`.
unfoldable pub resolve_maybe_relative_url : Bytes → Bytes → Bytes
unfolding trim_space trim_right has_prefix
resolve_maybe_relative_url ref api_base =
    let r = trim_space ref in
    let base = trim_right b'/' api_base in
    if is_empty r
    then []
    else if has_prefix r (codes "http://") || has_prefix r (codes "https://")
    then r
    else if has_prefix r (codes "//")
    then codes "https:" ++ r
    else if has_prefix r (codes "/")
    then base ++ r
    else base ++ (codes "/" ++ trim_prefix r (codes "/"))

unfoldable pub is_above_zero : ℤ → Bool
is_above_zero (pos n) = not (n == 0)
is_above_zero (negsuc n) = false

abbrev pub mails_path : Bytes
mails_path = codes "/data/attachments/mails/"

-- `AttachmentURLCandidates`; `query_escape` is `url.QueryEscape`.
unfoldable pub attachment_url_candidates :
    (Bytes → Bytes) → Unicode → Bytes → Attachment → Bytes → Bytes → ℤ → List Bytes
unfolding attachment_path_ext attachment_path_day add is_above_zero itoa trim_right eqb
attachment_url_candidates query_escape u base a token mail_created mail_id =
    let file = itoa a.id ++ (codes "." ++ attachment_path_ext u a) in
    let url = λ (path : Bytes).
      trim_right b'/' base ++ (mails_path ++ (path ++ (codes "?token=" ++ query_escape token))) in
    let primary = attachment_path_day a.created_at mail_created in
    let mail_day =
      if is_empty (trim_space mail_created) then [] else attachment_path_day mail_created [] in
    let one = add (url (primary ++ (codes "/" ++ file))) [] in
    let two =
      if not (is_empty mail_day) && not (eqb mail_day primary)
      then add (url (mail_day ++ (codes "/" ++ file))) one
      else one in
    let three = add (url file) two in
    if is_above_zero mail_id then add (url (itoa mail_id ++ (codes "/" ++ file))) three else three

-- `AttachmentURL`.
unfoldable pub first_url : List Bytes → Bytes
first_url [] = []
first_url (u ∷ us) = u

unfoldable pub attachment_url :
    (Bytes → Bytes) → Unicode → Bytes → Attachment → Bytes → Bytes → Bytes
unfolding attachment_url_candidates first_url trim_right
attachment_url query_escape u http_base a token mail_created = first_url (
    attachment_url_candidates query_escape u (trim_right b'/' http_base) a token mail_created
      (pos 0))
