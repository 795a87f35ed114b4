-- ===== src/Remote/Client.antt =====
-- internal/remote/client.go: the calls of the API. The HTTP client, JSON and the escapes of URLs
-- are parameters. The logging of requests is not modelled.
use xyecoc_mailbridge.Base.{
  ℕ, Bool, not, Option, none, some, List, [], ◌∷◌, ◌++◌, Bytes, codes, is_empty, if◌then◌else◌,
  length, take, leb, ◌==◌, ◌⊎◌, inl, inr,
}
use xyecoc_mailbridge.Text.{ℤ, decimal, itoa, trim_space, trim_right}
use xyecoc_mailbridge.Login.{authorization}
use xyecoc_mailbridge.Remote.{
  Json, text, files, Request, request, Response, Answer, answered, unreachable, is_one,
  extract_token,
}

-- What `http.Client.Do` and the reading of its body give.
pub data Reply : Type 0 where
  failed : Bytes → Reply
  replied : ℕ → Bytes → Reply

-- What `url.Parse` gives: the `token` of the query, `String`, and `String` with that token
-- replaced by `[redacted]`.
pub record ParsedUrl : Type 0 where
  pub token : Bytes
  pub plain : Bytes
  pub redacted : Bytes

-- The library, on a state `W` of the world. `post` takes the URL and the body, `get` the URL and
-- the value of the Authorization header where there is one. `marshal` is the JSON of a request
-- with its token, `marshal_reply` that of a map with a null `draft_id`.
pub record Http (W : Type 0) : Type 0 where
  pub post : Bytes → Bytes → W → Reply × W
  pub get : Bytes → Option Bytes → W → Reply × W
  pub marshal : Bytes → Request → Bytes
  pub marshal_reply : Bytes → Request → Bytes
  pub unmarshal : Bytes → Option Response
  pub decode : Bytes → Option Bytes
  pub parse_url : Bytes → Option ParsedUrl
  pub path_escape : Bytes → Bytes
  pub query_escape : Bytes → Bytes
  pub json : Json

-- `redactURLForLog`.
unfoldable pub redact_url_for_log : (Bytes → Option ParsedUrl) → Bytes → Bytes
redact_url_for_log parse raw = elim (parse raw) [
  | none ↦ raw
  | some u ↦
      let s = if is_empty u.token then u.plain else u.redacted in
      if leb (length s) 512 then s else take 512 s ++ codes "..."
]

-- `Client`, without its HTTP client and its log.
pub record Client : Type 0 where
  pub base_url : Bytes
  pub asset_url : Bytes
  pub lang : Bytes
  pub token : Bytes

-- `MailAssetOrigin`.
unfoldable pub mail_asset_origin : Client → Bytes
unfolding trim_space trim_right
mail_asset_origin c =
    let s = trim_space c.asset_url in if not (is_empty s) then trim_right b'/' s else c.base_url

-- `AttachmentOrigin`.
unfoldable pub attachment_origin : Client → Bytes
unfolding trim_right
attachment_origin c = trim_right b'/' c.base_url

-- `NewClient`.
unfoldable pub new_client : Bytes → Bytes → Client
unfolding trim_right
new_client base_url lang = record {
  base_url = trim_right b'/' base_url;
  asset_url = [];
  lang = lang;
  token = [];
}

-- `SetToken`.
unfoldable pub set_token : Bytes → Client → Client
set_token tok c = record c { token = tok }

-- `CloneWithToken`.
unfoldable pub clone_with_token : Bytes → Client → Client
unfolding new_client set_token
clone_with_token tok c =
    set_token tok (record (new_client c.base_url c.lang) { asset_url = c.asset_url })

-- `truncate`.
unfoldable pub truncate : Bytes → ℕ → Bytes
truncate s n = if leb (length s) n then s else take n s ++ codes "..."

-- The request of `DoReplyConfirm`, whose language is left out where it is blank.
unfoldable pub reply_confirm : Bytes → Bytes → List (Bytes × Bytes) → Bytes → Request
unfolding trim_space
reply_confirm mail_id html attaches lang =
    record (request (codes "mail") (codes "reply-confirm")
      (if is_empty (trim_space lang) then [] else lang)) {
        fields =
            (codes "message", text html)
            ∷ (codes "attaches", files attaches)
            ∷ (codes "mail_id", text mail_id)
            ∷ [];
      }

-- The language of a request: the client's where it names none.
unfoldable pub with_lang : Client → Request → Request
with_lang c req = record req {
  current_lang = if is_empty req.current_lang then c.lang else req.current_lang;
}

unfoldable pub or_token : Client → Bytes → Bytes
or_token c tok = if is_empty tok then c.token else tok

-- `MailHTMLURL`.
unfoldable pub mail_html_url : (Bytes → Bytes) → Bytes → Bytes → ℤ → Bytes
unfolding trim_right itoa
mail_html_url path_escape http_base token mail_id =
    trim_right b'/' http_base
    ++ (codes "/mail/" ++ (path_escape token ++ (codes "/" ++ itoa mail_id)))

-- The body of an answer with status 200; the left is an error.
unfoldable pub post_body : Reply → Bytes ⊎ Bytes
unfolding truncate decimal
post_body (failed e) = inl e
post_body (replied status raw) =
    if status == 200
    then inr raw
    else inl (codes "remote HTTP " ++ (decimal status ++ (codes ": " ++ truncate raw 512)))

unfoldable pub get_body : Bytes → Reply → Bytes ⊎ Bytes
unfolding decimal
get_body url (failed e) = inl e
get_body url (replied status raw) =
    if status == 200
    then inr raw
    else inl (codes "GET " ++ (url ++ (codes ": HTTP " ++ decimal status)))

module _ {W : Type 0} (http : Http W) where
  -- `postJSONBody`.
  unfoldable pub post_json_body : Client → Bytes → W → (Bytes ⊎ Bytes) × W
  unfolding post_body
  post_json_body c body w =
      let (r, w') = http.post (c.base_url ++ codes "/request") body w in (post_body r, w')

  -- `postJSON`, with the token of the request, empty where it has none.
  unfoldable pub post_json : Client → Bytes → Request → W → (Bytes ⊎ Bytes) × W
  unfolding post_json_body with_lang or_token
  post_json c tok req w = post_json_body c (http.marshal (or_token c tok) (with_lang c req)) w

  -- What is decoded of a body.
  unfoldable pub decoded : Bytes ⊎ Bytes → Answer
  decoded (inl e) = unreachable e
  decoded (inr raw) = elim (http.unmarshal raw) [
    | none ↦ unreachable (codes "decode response")
    | some r ↦ answered r
  ]

  -- `Do`; `DoRaw` is `postJSON`.
  unfoldable pub do_request : Client → Bytes → Request → W → Answer × W
  unfolding post_json decoded
  do_request c tok req w = let (r, w') = post_json c tok req w in (decoded r, w')

  -- `DoReplyConfirm`, with `postJSONMap`.
  unfoldable pub do_reply_confirm :
      Client → Bytes → Bytes → List (Bytes × Bytes) → Bytes → W → Answer × W
  unfolding post_json_body decoded reply_confirm with_lang
  do_reply_confirm c mail_id html attaches lang w =
      let req = with_lang c (reply_confirm mail_id html attaches lang) in
      let (r, w') = post_json_body c (http.marshal_reply c.token req) w in (decoded r, w')

  -- What `Authorize` and `RefreshToken` make of an answer: the new token, or an error.
  unfoldable pub new_token : Bytes → Answer → Bytes ⊎ Bytes
  unfolding is_one
  new_token what (unreachable e) = inl e
  new_token what (answered r) =
      if is_one r.status
      then elim (extract_token http.json r) [
        | none ↦ inl (codes "no token in data")
        | some t ↦ inr t
      ]
      else inl (what ++ r.message)

  -- Stores the new token; `none` is no error.
  unfoldable pub keep_token : Bytes ⊎ Bytes → Client → Option Bytes × Client
  unfolding set_token
  keep_token (inl e) c = (some e, c)
  keep_token (inr t) c = (none, set_token t c)

  -- `RefreshToken`.
  unfoldable pub refresh_token : Client → W → (Option Bytes × Client) × W
  unfolding do_request new_token keep_token
  refresh_token c w =
      let req = record (request (codes "account") (codes "refresh-token") []) {
        fields = (codes "token", text c.token) ∷ [];
      } in
      let (a, w') = do_request c c.token req w in
      if is_empty c.token
      then ((some (codes "no token to refresh"), c), w)
      else (keep_token (new_token (codes "refresh failed: ") a) c, w')

  -- `Authorize`.
  unfoldable pub authorize : Client → Bytes → Bytes → W → (Option Bytes × Client) × W
  unfolding do_request new_token keep_token authorization
  authorize c email password w =
      let (a, w') = do_request c [] (authorization email password) w in
      (keep_token (new_token (codes "login failed: ") a) c, w')

  -- `downloadGET`, and with no bearer `DownloadGET`.
  unfoldable pub download_get : Client → Bytes → Bool → W → (Bytes ⊎ Bytes) × W
  unfolding get_body redact_url_for_log
  download_get c url bearer w =
      let header = if is_empty c.token then none else some (codes "Bearer " ++ c.token) in
      let (r, w') = http.get url (if bearer then header else none) w in
      (get_body (redact_url_for_log http.parse_url url) r, w')
