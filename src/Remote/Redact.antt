-- ===== src/Remote/Redact.antt =====
-- internal/remote/redact.go: what is logged of the JSON of requests and answers. `json.Unmarshal`,
-- `json.Marshal` and Unicode's tables are parameters.
pub mod Alike
use xyecoc_mailbridge.Base.{
  ℕ, zero, suc, ◌+◌, ◌-◌, Bool, true, false, ◌&&◌, ◌||◌, Option, none, some, [], ◌∷◌, ◌++◌, Bytes,
  codes, eqb, is_empty, if◌then◌else◌, length, take, drop, leb,
}
use xyecoc_mailbridge.Text.{Unicode, to_lower, trim_space, has_suffix, decimal}
use xyecoc_mailbridge.Remote.{Request}
use xyecoc_mailbridge.Remote.Client.{truncate}

-- A decoded value; an object lists its members in the order in which a `range` takes them.
mutual
  pub data Tree : Type 0 where
    null : Tree
    bool : Bool → Tree
    number : Bytes → Tree
    string : Bytes → Tree
    array : Items → Tree
    object : Members → Tree

  pub data Items : Type 0 where
    nil : Items
    cons : Tree → Items → Items

  pub data Members : Type 0 where
    end : Members
    member : Bytes → Tree → Members → Members

-- The library.
pub record Codec : Type 0 where
  pub unmarshal : Bytes → Option Tree
  pub marshal : Tree → Option Bytes
  pub unicode : Unicode

unfoldable pub count : Items → ℕ
count nil = 0
count (cons t ts) = suc (count ts)

unfoldable pub first : ℕ → Items → Items
first zero ts = nil
first (suc n) nil = nil
first (suc n) (cons t ts) = cons t (first n ts)

-- `m[k] = v`.
unfoldable pub set_member : Bytes → Tree → Members → Members
unfolding eqb
set_member k v end = member k v end
set_member k v (member j w ms) =
    let rest = set_member k v ms in if eqb j k then member k v ms else member j w rest

-- "…", in UTF-8.
abbrev dots : Bytes
dots = 0xE2 ∷ 0x80 ∷ 0xA6 ∷ []

-- `redactTokenString`.
unfoldable pub redact_token_string : Bytes → Bytes
unfolding trim_space decimal
redact_token_string s =
    let t = trim_space s in
    let n = decimal (length t) in
    if is_empty t
    then []
    else if leb (length t) 12
    then codes "[token len=" ++ (n ++ codes "]")
    else take 4 t
      ++ (dots
          ++ (codes "[redacted " ++ (n ++ (codes " chars]" ++ (dots ++ drop (length t - 4) t)))))

-- The first eight entries of a longer list.
unfoldable pub cut_mails : Tree → Tree
unfolding count first
cut_mails (array ts) = array (if leb (count ts) 8 then ts else first 8 ts)
cut_mails null = null
cut_mails (bool b) = bool b
cut_mails (number n) = number n
cut_mails (string s) = string s
cut_mails (object ms) = object ms

-- How many were left out.
unfoldable pub omitted : Tree → ℕ
unfolding count
omitted (array ts) = count ts - 8
omitted null = 0
omitted (bool b) = 0
omitted (number n) = 0
omitted (string s) = 0
omitted (object ms) = 0

unfoldable pub with_omitted : ℕ → Members → Members
unfolding set_member decimal
with_omitted zero ms = ms
with_omitted (suc n) ms = set_member (codes "_mails_omitted") (number (decimal (suc n))) ms

module _ (c : Codec) where
  -- `stringify`.
  unfoldable pub or_empty : Option Bytes → Bytes
  or_empty none = []
  or_empty (some s) = s

  unfoldable pub stringify : Tree → Bytes
  unfolding or_empty
  stringify null = []
  stringify (string s) = s
  stringify (bool b) = or_empty (c.marshal (bool b))
  stringify (number n) = or_empty (c.marshal (number n))
  stringify (array ts) = or_empty (c.marshal (array ts))
  stringify (object ms) = or_empty (c.marshal (object ms))

  -- The cases of the switch of `redactMap`, on the key.
  unfoldable pub is_password : Bytes → Bool
  unfolding to_lower eqb
  is_password k =
      let lk = to_lower c.unicode k in
      eqb lk (codes "password") || (eqb lk (codes "pass") || eqb lk (codes "secret"))

  unfoldable pub is_token : Bytes → Bool
  unfolding to_lower eqb has_suffix
  is_token k =
      let lk = to_lower c.unicode k in
      eqb lk (codes "token") || (eqb lk (codes "authorization") || has_suffix lk (codes "_token"))

  unfoldable pub is_mails : Bytes → Bool
  unfolding to_lower eqb
  is_mails k = eqb (to_lower c.unicode k) (codes "mails")

  -- What becomes of a value, given what redacting it makes of it.
  unfoldable pub redact_member : Bytes → Tree → Tree → Tree
  unfolding is_password is_token is_mails redact_token_string stringify cut_mails
  redact_member k v redacted =
      if is_password k
      then string (codes "[redacted]")
      else if is_token k
      then string (redact_token_string (stringify v))
      else if is_mails k
      then cut_mails v
      else redacted

  -- The entries left out of the list under `mails`; of several, the last.
  unfoldable pub omitted_in : Members → ℕ
  unfolding omitted is_mails is_password is_token
  omitted_in end = 0
  omitted_in (member k v ms) =
      let later = omitted_in ms in
      elim later [ suc n ↦ suc n | zero ↦ if is_mails k then omitted v else 0 ]

  unfoldable mutual
    unfolding with_omitted omitted_in redact_member

    -- `redactValue`.
    pub redact_value : Tree → Tree
    redact_value null = null
    redact_value (bool b) = bool b
    redact_value (number n) = number n
    redact_value (string s) = string s
    redact_value (array ts) = array (redact_items ts)
    redact_value (object ms) = object (with_omitted (omitted_in ms) (redact_members ms))

    pub redact_items : Items → Items
    redact_items nil = nil
    redact_items (cons t ts) = cons (redact_value t) (redact_items ts)

    -- The loop of `redactMap`.
    pub redact_members : Members → Members
    redact_members end = end
    redact_members (member k v ms) =
        member k (redact_member k v (redact_value v)) (redact_members ms)

  unfoldable pub shorten : Bytes → Option Bytes → Bytes
  unfolding truncate
  shorten s none = truncate s 24000
  shorten s (some out) =
      if leb (length out) 24000 then out else take 24000 out ++ codes "\"...[truncated]\""

  unfoldable pub redacted_text : Bytes → Option Tree → Bytes
  unfolding shorten redact_value truncate
  redacted_text s none = truncate s 24000
  redacted_text s (some v) = shorten s (c.marshal (redact_value v))

  -- `redactJSONString`.
  unfoldable pub redact_json_string : Bytes → Bytes
  unfolding redacted_text
  redact_json_string s = if is_empty s then [] else redacted_text s (c.unmarshal s)

  -- `redactRequestDump`; `encode` is `json.Marshal` on requests, `none` a nil request.
  unfoldable pub redact_request_dump : (Request → Option Bytes) → Option Request → Bytes
  unfolding redact_json_string
  redact_request_dump encode none = codes "null"
  redact_request_dump encode (some req) = elim (encode req) [
    | none ↦ codes "{}"
    | some b ↦ redact_json_string b
  ]
