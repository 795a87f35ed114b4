-- ===== src/Outgoing.antt =====
-- internal/smtpbridge/parse_outbound.go, with `parseMailFromSMTPData` of submit.go: what is read of
-- a message that a client submits. The MIME libraries are a parameter.
pub mod Walk
pub mod Escape
pub mod Basename
pub mod Attached
use xyecoc_mailbridge.Base.{
  ℕ, Bool, true, false, not, ◌&&◌, ◌||◌, Option, none, some, List, [], ◌∷◌, ◌++◌, Bytes, codes, eqb,
  is_empty, if◌then◌else◌, lookup, ◌==◌, leb, length, take, drop, ◌-◌,
}
use xyecoc_mailbridge.Text.{
  Unicode, to_lower, equal_fold, lower_byte, trim_space, trim_right, has_prefix, cut_byte, cut,
  split, replace_byte, is_digit,
}

-- A part as `Walk` passes it on; `body` is what `io.ReadAll` gives, `none` for an error.
pub record Part : Type 0 where
  pub content_type : Bytes
  pub disposition : Bytes × List (Bytes × Bytes)
  pub body : Option Bytes

-- A message: `Header.Get`, and the parts in the order of `Walk`, `none` for an error of it.
pub record Entity : Type 0 where
  pub get : Bytes → Bytes
  pub parts : List (Option Part)

-- message.Read, mime.ParseMediaType, mime.ExtensionsByType and base64's StdEncoding.
pub record Mime : Type 0 where
  pub read : Bytes → Option Entity
  pub parse_media_type : Bytes → Bytes × List (Bytes × Bytes)
  pub extensions_by_type : Bytes → List Bytes
  pub encode : Bytes → Bytes

-- What `parseOutboundMail` returns.
pub record Outbound : Type 0 where
  pub subject : Bytes
  pub html : Bytes
  pub reply_mail_id : Bytes
  pub attaches : List (Bytes × Bytes)

-- `m[key]`, the empty string where it is missing.
unfoldable pub value_of : Bytes → List (Bytes × Bytes) → Bytes
unfolding lookup
value_of key m = elim (lookup key m) [ none ↦ [] | some v ↦ v ]

-- The text without its first and last byte.
unfoldable pub inner : Bytes → Bytes
inner s = take (length s - 2) (drop 1 s)

unfoldable pub is_quoted : Bytes → Bool
unfolding has_prefix
is_quoted s =
    leb 2 (length s) && has_prefix s (codes "\"") && eqb (drop (length s - 1) s) (codes "\"")

-- `decodeRFC2047Filename`.
unfoldable pub decode_rfc2047_filename : Bytes → Bytes
unfolding inner is_quoted
decode_rfc2047_filename s = let t = trim_space s in if is_quoted t then inner t else t

-- `pickFilename`.
unfoldable pub pick_filename : List (Bytes × Bytes) → List (Bytes × Bytes) → Bytes
unfolding decode_rfc2047_filename value_of
pick_filename disp_params ct_params =
    let v = value_of (codes "filename") disp_params in
    let w = value_of (codes "name") ct_params in
    if not (is_empty v)
    then decode_rfc2047_filename v
    else if not (is_empty w)
    then decode_rfc2047_filename w
    else []

-- `filepath.Base` where the separator is `/`.
unfoldable pub last_part : List Bytes → Bytes
last_part [] = []
last_part (p ∷ []) = p
last_part (p ∷ q ∷ ps) = last_part (q ∷ ps)

unfoldable pub base : Bytes → Bytes
unfolding last_part split trim_right
base path =
    let name = last_part (split b'/' (trim_right b'/' path)) in
    if is_empty path then codes "." else if is_empty name then codes "/" else name

-- `basenameOnly`.
unfoldable pub basename_only : Bytes → Bytes
unfolding base replace_byte eqb
basename_only name =
    let b = base (replace_byte b'\\' (codes "/") name) in
    if eqb b (codes ".") || eqb b (codes "/") then [] else b

-- `htmlEscPlain`.
unfoldable pub html_esc_plain : Bytes → Bytes
unfolding replace_byte
html_esc_plain s =
    replace_byte b'>' (codes "&gt;")
      (replace_byte b'<' (codes "&lt;") (replace_byte b'&' (codes "&amp;") s))

-- `s` behind the prefix, where it is one in any case of its letters.
unfoldable pub cut_prefix_fold : Bytes → Bytes → Option Bytes
unfolding lower_byte
cut_prefix_fold s [] = some s
cut_prefix_fold [] (p ∷ ps) = none
cut_prefix_fold (x ∷ xs) (p ∷ ps) =
    let rest = cut_prefix_fold xs ps in if lower_byte x == lower_byte p then rest else none

-- The digits at the front, and the rest.
unfoldable pub span_digits : Bytes → Bytes × Bytes
unfolding is_digit
span_digits [] = ([], [])
span_digits (x ∷ xs) =
    let rest = span_digits xs in if is_digit x then (x ∷ rest.0, rest.1) else ([], x ∷ xs)

unfoldable pub closed_id : Bytes × Bytes → Option Bytes
unfolding cut_prefix_fold
closed_id (ds, rest) =
    let closing = cut_prefix_fold rest (codes "@mailbridge>") in
    if is_empty ds then none else elim closing [ none ↦ none | some r ↦ some ds ]

-- A match of `reMailBridgeInReply` at the front: the digits in it.
unfoldable pub reply_here : Bytes → Option Bytes
unfolding closed_id cut_prefix_fold span_digits
reply_here s = elim (cut_prefix_fold s (codes "<xyecoc-mail-")) [
  | none ↦ none
  | some rest ↦ closed_id (span_digits rest)
]

-- The leftmost match.
unfoldable pub find_reply : Bytes → Option Bytes
unfolding reply_here
find_reply [] = none
find_reply (x ∷ xs) =
    let rest = find_reply xs in elim (reply_here (x ∷ xs)) [ some ds ↦ some ds | none ↦ rest ]

unfoldable pub first_reply : (Bytes → Bytes) → List Bytes → Bytes
unfolding find_reply
first_reply get [] = []
first_reply get (key ∷ keys) = elim (find_reply (get key)) [
  | some ds ↦ ds
  | none ↦ first_reply get keys
]

-- `extractReplyMailID`.
unfoldable pub extract_reply_mail_id : (Bytes → Bytes) → Bytes
unfolding first_reply
extract_reply_mail_id get =
    let v = trim_space (get (codes "X-Remote-Mail-Id")) in
    if not (is_empty v) then v else first_reply get (codes "In-Reply-To" ∷ codes "References" ∷ [])
