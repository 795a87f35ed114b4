-- ===== src/Config.antt =====
-- internal/config/config.go: the settings, from the environment.
use xyecoc_mailbridge.Base.{
  ℕ, ◌-◌, ◌*◌, ◌%◌, ◌^◌, ◌<◌, Bool, true, false, ◌&&◌, ◌||◌, Option, none, some, [], ◌∷◌, Bytes,
  codes, eqb, is_empty, if◌then◌else◌, ltb, ◌==◌, arith, Bool-cases, inl, inr, ltb→lt, if-Both, leb,
}
use xyecoc_mailbridge.Text.{
  Unicode, to_lower, equal_fold, ℤ, pos, negsuc, atoi, positive, negative, value, trim_space,
  trim_prefix, contains,
}

-- A product of seconds as a `time.Duration`, in nanoseconds: a signed 64-bit number, wrapped.
unfoldable pub seconds : ℕ → ℤ
seconds n =
    let d = n * 1000000000 % 2 ^ 64 in if ltb d (2 ^ 63) then pos d else negsuc (2 ^ 64 - 1 - d)

pub record Config : Type 0 where
  pub remote_http_base : Bytes
  pub remote_asset_base : Bytes
  pub lang : Bytes
  pub mail_default_action_current_lang : Bytes
  pub mail_view_current_lang : Bytes
  pub mail_compose_current_lang : Bytes
  pub default_mail_domain : Bytes
  pub remote_auth_email_local_part_only : Bool
  pub imap_addr : Bytes
  pub smtp_addr : Bytes
  pub imap_allow_insecure_auth : Bool
  pub http_timeout : ℤ
  pub max_mail_list : ℕ
  pub trust_proxy_header : Bool
  pub remote_http_trace : Bool
  pub protocol_log : Bool
  pub tag_default_color : Bytes

-- A number that `Atoi` reads and that is positive, or else the default.
unfoldable pub positive_or : ℕ → Option ℤ → ℕ
positive_or def none = def
positive_or def (some (negsuc n)) = def
positive_or def (some (pos n)) = if n == 0 then def else n

module _ (u : Unicode) (env : Bytes → Bytes) where
  -- `getenv`.
  unfoldable pub getenv : Bytes → Bytes → Bytes
  getenv key def = let v = env key in if is_empty v then def else v

  -- `getenvBool`.
  unfoldable pub getenv_bool : Bytes → Bool → Bool
  unfolding to_lower trim_space eqb
  getenv_bool key def =
      let v = to_lower u (trim_space (env key)) in
      if is_empty v then def else eqb v (codes "1") || (eqb v (codes "true") || eqb v (codes "yes"))

  -- `defaultMailDomain`.
  unfoldable pub default_mail_domain : Bytes
  unfolding equal_fold trim_space eqb
  default_mail_domain =
      let v = trim_space (env (codes "MAIL_DEFAULT_DOMAIN")) in
      if equal_fold u v (codes "off") || eqb v (codes "-") then [] else v

  unfoldable pub asset_base : Bytes → Bytes
  unfolding contains to_lower trim_space
  asset_base http_base =
      let v = trim_space (env (codes "REMOTE_ASSET_BASE")) in
      if is_empty v && contains (to_lower u http_base) (codes "api.xyecoc.com")
      then codes "https://cdn.xyecoc.com"
      else v

  -- The number of a variable, where it is set and positive.
  unfoldable pub number_of : Bytes → ℕ → ℕ
  unfolding positive_or atoi
  number_of key def = let v = env key in if is_empty v then def else positive_or def (atoi v)

  -- `Load`.
  unfoldable pub load : Config
  unfolding getenv getenv_bool default_mail_domain asset_base number_of seconds equal_fold
      trim_prefix trim_space eqb
  load =
      let http_base = getenv (codes "REMOTE_HTTP_BASE") (codes "https://api.xyecoc.com") in
      let debug = equal_fold u (trim_space (env (codes "LOG_LEVEL"))) (codes "debug") in
      record {
        remote_http_base = http_base;
        remote_asset_base = asset_base http_base;
        lang = getenv (codes "MAILBRIDGE_LANG") (codes "ru");
        mail_default_action_current_lang =
            getenv (codes "MAILBRIDGE_MAIL_CURRENT_LANG") (codes "inbox");
        mail_view_current_lang = getenv (codes "MAILBRIDGE_MAIL_VIEW_LANG") (codes "mail");
        mail_compose_current_lang = getenv (codes "MAILBRIDGE_MAIL_COMPOSE_LANG") (codes "mail");
        default_mail_domain = default_mail_domain;
        remote_auth_email_local_part_only =
            getenv_bool (codes "REMOTE_AUTH_EMAIL_LOCAL_PART_ONLY") true;
        imap_addr = getenv (codes "IMAP_ADDR") (codes ":143");
        smtp_addr = getenv (codes "SMTP_ADDR") (codes ":587");
        imap_allow_insecure_auth = getenv_bool (codes "IMAP_ALLOW_INSECURE_AUTH") true;
        http_timeout = seconds (number_of (codes "HTTP_TIMEOUT_SEC") 60);
        max_mail_list = number_of (codes "MAX_MAIL_LIST") 5000;
        trust_proxy_header = eqb (getenv (codes "TRUST_PROXY") []) (codes "1");
        remote_http_trace = getenv_bool (codes "REMOTE_HTTP_TRACE") debug;
        protocol_log = getenv_bool (codes "MAILBRIDGE_PROTOCOL_LOG") false;
        tag_default_color =
            trim_prefix
              (trim_space (getenv (codes "MAILBRIDGE_TAG_DEFAULT_COLOR") (codes "ADACF1")))
              (codes "#");
      }

-- A 64-bit `int` that is positive.
unfoldable pub InRange : ℕ → Type 0
InRange n = (0 < n) × (n < 2 ^ 63)

-- A number that fits a 64-bit `int`, where there is one.
Fits : Option ℤ → Type 0
Fits none = Unit
Fits (some (negsuc n)) = Unit
Fits (some (pos n)) = n < 2 ^ 63

positive-Fits : (o : Option ℕ) → Fits (positive o)
unfolding positive Fits
positive-Fits none = tt
positive-Fits (some m) = elim (Bool-cases (ltb m (2 ^ 63))) [
  | inl e ↦ rw (positive, e) (ltb→lt m (2 ^ 63) e)
  | inr e ↦ rw (positive, e) tt
]

negative-Fits : (o : Option ℕ) → Fits (negative o)
unfolding negative Fits
negative-Fits none = tt
negative-Fits (some m) = if-Both Fits (m == 0) (omega arith) (if-Both Fits (leb m (2 ^ 63)) tt tt)

atoi-Fits : (s : Bytes) → Fits (atoi s)
unfolding atoi Fits
atoi-Fits [] = tt
atoi-Fits (c ∷ cs) =
    if-Both Fits (c == b'+') (positive-Fits (value cs))
      (if-Both Fits (c == b'-') (negative-Fits (value cs)) (positive-Fits (value (c ∷ cs))))

positive_or-InRange : (def : ℕ) (o : Option ℤ) → InRange def → Fits o → InRange (positive_or def o)
unfolding positive_or InRange Fits
positive_or-InRange def none d h = d
positive_or-InRange def (some (negsuc n)) d h = d
positive_or-InRange def (some (pos n)) d h = elim (Bool-cases (n == 0)) [
  | inl e ↦ rw (positive_or, e) d
  | inr e ↦ rw (positive_or, e) (ground (arith, e), h)
]

number_of-InRange :
    (u : Unicode) (env : Bytes → Bytes) (key : Bytes) (def : ℕ)
    → InRange def
    → InRange (number_of u env key def)
unfolding number_of
number_of-InRange u env key def d =
    if-Both InRange (is_empty (env key)) d
      (positive_or-InRange def (atoi (env key)) d (atoi-Fits (env key)))

-- Whatever the environment holds, the limit of a list is positive and fits an `int`.
pub load-InRange : (u : Unicode) (env : Bytes → Bytes) → InRange (load u env).max_mail_list
unfolding load
load-InRange u env =
    number_of-InRange u env (codes "MAX_MAIL_LIST") 5000
      (unfold InRange in (omega arith, omega arith))
