-- ===== src/Imap/Names.antt =====
-- internal/imapbackend/names.go: mailbox names. Strings are valid UTF-8, as the JSON and IMAP
-- decoders make them.
pub mod RoundTrip
pub mod Fresh
pub mod Sanitized
use xyecoc_mailbridge.Base.{
  ℕ, zero, suc, ◌+◌, Bool, true, false, not, ◌&&◌, ◌||◌, Option, none, some, List, [], ◌∷◌, ◌++◌,
  Bytes, codes, eqb, is_empty, is_some, length, take, ltb, leb, ◌==◌, if◌then◌else◌,
}
use xyecoc_mailbridge.Text.{
  Unicode, to_lower, trim_space, split, join, replace_byte, cut_prefix, decimal, atoi,
}

pub record MailboxSpec : Type 0 where
  pub param1 : Bytes
  pub param2 : Bytes

-- `MailboxSpec{Param1: p}`.
abbrev pub spec_of : Bytes → MailboxSpec
spec_of p = record { param1 = p; param2 = [] }

unfoldable pub spec_cache_key : MailboxSpec → Bytes
spec_cache_key s = if not (is_empty s.param2) then s.param1 ++ (b'/' ∷ s.param2) else s.param1

-- What the loop of `sanitizeIMAPMailboxName` writes for a one-byte character: a dash for a
-- separator, nothing for a control character.
unfoldable pub sanitize_byte : ℕ → Bytes → Bytes
sanitize_byte c rest =
    if c == b'/' || c == b'\\' then b'-' ∷ rest else if ltb c 32 || c == 127 then rest else c ∷ rest

-- The loop. The control characters from U+0080 to U+009F take two bytes.
unfoldable pub sanitize_runes : Bytes → Bytes
unfolding sanitize_byte
sanitize_runes [] = []
sanitize_runes (c ∷ []) = sanitize_byte c []
sanitize_runes (c ∷ d ∷ s) =
    let rest = sanitize_runes (d ∷ s) in
    let behind = sanitize_runes s in
    if c == 0xC2 && leb d 0x9F then behind else sanitize_byte c rest

-- `sanitizeIMAPMailboxName`.
unfoldable pub sanitize : Bytes → Bytes
unfolding sanitize_runes
sanitize s = take 200 (trim_space (sanitize_runes (trim_space s)))

-- The last segment that is not blank, without the white space around it.
unfoldable pub last_segment : List Bytes → Option Bytes
last_segment [] = none
last_segment (p ∷ ps) =
    let t = trim_space p in
    elim (last_segment ps) [ some later ↦ some later | none ↦ if is_empty t then none else some t ]

-- The segments of a path with `/` or `\`.
unfoldable pub segments : Bytes → List Bytes
segments s = split b'/' (replace_byte b'\\' (codes "/") s)

-- `imapMailboxLeaf`.
unfoldable pub mailbox_leaf : Bytes → Bytes
unfolding last_segment segments
mailbox_leaf name =
    let s = trim_space name in
    if is_empty s then [] else elim (last_segment (segments s)) [
      | some leaf ↦ leaf
      | none ↦ replace_byte b'\\' (codes "/") s
    ]

unfoldable pub is_reserved : Bytes → Bool
unfolding eqb
is_reserved lower =
    eqb lower (codes "inbox")
    || eqb lower (codes "sent")
    || eqb lower (codes "drafts")
    || eqb lower (codes "junk")
    || eqb lower (codes "spam")
    || eqb lower (codes "trash")
    || eqb lower (codes "important")

unfoldable pub canonical_name : MailboxSpec → Bytes
unfolding eqb
canonical_name s =
    if eqb s.param1 (codes "inbox")
    then codes "INBOX"
    else if eqb s.param1 (codes "sent")
    then codes "Sent"
    else if eqb s.param1 (codes "draft")
    then codes "Drafts"
    else if eqb s.param1 (codes "trash")
    then codes "Trash"
    else if eqb s.param1 (codes "spam")
    then codes "Junk"
    else if eqb s.param1 (codes "important")
    then codes "Important"
    else if eqb s.param1 (codes "folders")
    then codes "Folder-" ++ s.param2
    else if eqb s.param1 (codes "tags")
    then codes "Tag-" ++ s.param2
    else codes "INBOX"

-- The case of `ParseMailboxName` for a prefix, from what stands behind it.
unfoldable pub numbered : Bytes → Bytes → Option MailboxSpec
numbered param id =
    if is_some (atoi id) then some (record { param1 = param; param2 = id }) else none

-- The names with a prefix.
unfoldable pub parse_numbered : Bytes → Option MailboxSpec
unfolding numbered
parse_numbered low = elim (cut_prefix low (codes "folder-")) [
  | some id ↦ numbered (codes "folders") id
  | none ↦ elim (cut_prefix low (codes "tag-")) [
    | some id ↦ numbered (codes "tags") id
    | none ↦ none
  ]
]

unfoldable pub parse_lower : Bytes → Option MailboxSpec
unfolding parse_numbered eqb
parse_lower low =
    if eqb low (codes "inbox")
    then some (spec_of (codes "inbox"))
    else if eqb low (codes "sent")
    then some (spec_of (codes "sent"))
    else if eqb low (codes "drafts")
    then some (spec_of (codes "draft"))
    else if eqb low (codes "trash")
    then some (spec_of (codes "trash"))
    else if eqb low (codes "junk") || eqb low (codes "spam")
    then some (spec_of (codes "spam"))
    else if eqb low (codes "important")
    then some (spec_of (codes "important"))
    else parse_numbered low

-- `ParseMailboxName`; `none` is any of its errors.
unfoldable pub parse_mailbox_name : Unicode → Bytes → Option MailboxSpec
unfolding parse_lower
parse_mailbox_name u name = parse_lower (to_lower u (trim_space name))

-- Is the key in the map `occupied`?
unfoldable pub taken : Bytes → List Bytes → Bool
unfolding eqb
taken k [] = false
taken k (j ∷ rest) = eqb j k || taken k rest

-- The name that the loops try in round `i`, counted from 0.
unfoldable pub candidate : Bytes → MailboxSpec → ℕ → Bytes
candidate base spec zero = base
candidate base spec (suc zero) =
    base ++ (codes " [" ++ (spec.param1 ++ (b' ' ∷ (spec.param2 ++ codes "]"))))
candidate base spec (suc (suc i)) = base ++ (b'~' ∷ decimal (suc (suc i)))

-- The loops, from round `i`; `none` means that the fuel ran out.
unfoldable pub first_free : (ℕ → Bytes) → ℕ → ℕ → List Bytes → Option Bytes
unfolding taken
first_free name zero i occupied = none
first_free name (suc f) i occupied =
    let later = first_free name f (suc i) occupied in
    if taken (name i) occupied then later else some (name i)

-- The loops with fuel for one round more than there are names, and two more. The new name joins
-- the map.
unfoldable pub claim : (ℕ → Bytes) → List Bytes → Option (Bytes × List Bytes)
unfolding first_free
claim name occupied = elim (first_free name (suc (suc (suc (length occupied)))) 0 occupied) [
  | none ↦ none
  | some n ↦ some (n, n ∷ occupied)
]

-- The text that a display name is made from, or else the fallback.
unfoldable pub display_base : Unicode → Bytes → Bytes → Bytes
unfolding sanitize is_reserved
display_base u api_name fallback =
    let base = sanitize api_name in
    if is_empty base || is_reserved (to_lower u base) then fallback else base

-- `uniqueDisplayName`.
unfoldable pub unique_display_name :
    Unicode → Bytes → MailboxSpec → List Bytes → Option (Bytes × List Bytes)
unfolding display_base claim candidate canonical_name
unique_display_name u api_name spec =
    claim (candidate (display_base u api_name (canonical_name spec)) spec)

-- `uniqueTagDisplayName`.
unfoldable pub unique_tag_display_name :
    Unicode → Bytes → MailboxSpec → List Bytes → Option (Bytes × List Bytes)
unfolding display_base claim candidate
unique_tag_display_name u tag_name spec =
    claim (candidate (codes "Tag-" ++ display_base u tag_name spec.param2) spec)

-- `folderNameForAPI`; `none` is any of its errors.
unfoldable pub folder_name_for_api : Unicode → Bytes → Option Bytes
unfolding last_segment segments sanitize is_reserved parse_mailbox_name eqb
folder_name_for_api u name =
    let s = trim_space name in
    if is_empty s then none else elim (last_segment (segments s)) [
      | none ↦ none
      | some segment ↦
          let leaf = sanitize segment in
          if is_empty leaf || is_reserved (to_lower u leaf)
          then none
          else elim (parse_mailbox_name u leaf) [
            | none ↦ some leaf
            | some spec ↦
                if eqb spec.param1 (codes "folders") || eqb spec.param1 (codes "tags")
                then some leaf
                else none
          ]
    ]

-- The segments that are not blank, trimmed.
unfoldable pub named_segments : List Bytes → List Bytes
named_segments [] = []
named_segments (p ∷ ps) =
    let rest = named_segments ps in let t = trim_space p in if is_empty t then rest else t ∷ rest

-- The label behind the first segment.
unfoldable pub tag_label : Unicode → List Bytes → Option Bytes
unfolding sanitize is_reserved join
tag_label u segs =
    let rest = sanitize (join (codes "/") segs) in
    if is_empty rest || is_reserved (to_lower u rest) then none else some rest

-- `tagCreateDisplayName`.
unfoldable pub tag_create_display_name : Unicode → Bytes → Option Bytes
unfolding named_segments segments tag_label eqb
tag_create_display_name u name = elim (named_segments (segments (trim_space name))) [
  | [] ↦ none
  | root ∷ [] ↦ none
  | root ∷ seg ∷ segs ↦
      let low = to_lower u root in
      if eqb low (codes "tag") || eqb low (codes "labels") then tag_label u (seg ∷ segs) else none
]

unfoldable pub page_of_id : Bytes → Bytes → Bytes
page_of_id kind id = if is_empty id then codes "/inbox/" else kind ++ (id ++ codes "/")

-- `PageIDForMailboxSpec`.
unfoldable pub page_id : MailboxSpec → Bytes
unfolding eqb page_of_id
page_id s =
    if eqb s.param1 (codes "sent")
    then codes "/sent/"
    else if eqb s.param1 (codes "draft")
    then codes "/draft/"
    else if eqb s.param1 (codes "trash")
    then codes "/trash/"
    else if eqb s.param1 (codes "spam")
    then codes "/spam/"
    else if eqb s.param1 (codes "important")
    then codes "/important/"
    else if eqb s.param1 (codes "folders")
    then page_of_id (codes "/inbox/folders/") s.param2
    else if eqb s.param1 (codes "tags")
    then page_of_id (codes "/inbox/tags/") s.param2
    else codes "/inbox/"

unfoldable pub param : Bytes → Bytes → List (Bytes × Bytes)
param key v = if is_empty v then [] else (key, v) ∷ []

-- `paramsFromSpec`.
unfoldable pub params_from_spec : MailboxSpec → List (Bytes × Bytes)
unfolding param
params_from_spec s = param (codes "param_1") s.param1 ++ param (codes "param_2") s.param2
