-- ===== src/Login.antt =====
-- What the logins of both servers share: `Authorize` of internal/remote/client.go, and the login
-- limit of internal/loginlimit where there is one.
use xyecoc_mailbridge.Base.{ℕ, Bool, true, Option, none, some, [], ◌∷◌, Bytes, codes, if◌then◌else◌}
use xyecoc_mailbridge.LoginLimit.{Tracker, allowed, record_failure, record_success}
use xyecoc_mailbridge.Remote.{
  Json, text, Request, request, Answer, answered, unreachable, is_one, extract_token,
}

unfoldable pub limit_check : ℕ → Bytes → Option Tracker → Bool × Option Tracker
limit_check now ip none = (true, none)
limit_check now ip (some t) = let (free, t') = allowed now ip t in (free, some t')

unfoldable pub limit_failure : ℕ → Bytes → Option Tracker → Option Tracker
limit_failure now ip none = none
limit_failure now ip (some t) = some (record_failure now ip t)

unfoldable pub limit_success : Bytes → Option Tracker → Option Tracker
limit_success ip none = none
limit_success ip (some t) = some (record_success ip t)

-- The request of `Client.Authorize`, and the token in its answer.
unfoldable pub authorization : Bytes → Bytes → Request
authorization email password = record (request (codes "account") (codes "authorization") []) {
  fields = (codes "email", text email) ∷ (codes "password", text password) ∷ [];
}

unfoldable pub token_of : Json → Answer → Option Bytes
unfolding is_one
token_of json (unreachable e) = none
token_of json (answered r) = if is_one r.status then extract_token json r else none
