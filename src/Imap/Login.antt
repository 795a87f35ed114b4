-- ===== src/Imap/Login.antt =====
-- `Login` of internal/imapbackend/backend.go, and its agreement with the login of the SMTP server.
use xyecoc_mailbridge.Base.{
  [], Bool, Option, none, some, Bytes, ◌≡◌, refl, if◌then◌else◌, Bool-cases, inl, inr, is_some, ℕ,
  ◌≤◌, ◌+◌, subst,
}
use xyecoc_mailbridge.Text.{trim_space_idem}
use xyecoc_mailbridge.Identity.{expand_local_part, remote_auth_email}
use xyecoc_mailbridge.LoginLimit.{Tracker}
use xyecoc_mailbridge.Login.{limit_check, limit_failure, limit_success, authorization, token_of}
use xyecoc_mailbridge.Remote.{Request}
use xyecoc_mailbridge.Submit.{
  Gateway, Config, Bridge, may_try, finish_login, log_in, auth_handler, auth_timeout,
}

-- `Backend`, with the world around it.
pub record Backend (W : Type 0) : Type 0 where
  pub world : W
  pub limit : Option Tracker

module _ {W : Type 0} (g : Gateway W) (cfg : Config) where
  -- What `Login` does with the answer of the API: the user has the login and the token.
  unfoldable pub admit :
      Bytes → Bytes → Option Bytes → Backend W → Option (Bytes × Bytes) × Backend W
  unfolding limit_failure limit_success
  admit ip address none s = (none, record s { limit = limit_failure (g.now s.world) ip s.limit })
  admit ip address (some token) s =
      (some (address, token), record s { limit = limit_success ip s.limit })

  -- The call of the API in `Login`.
  unfoldable pub authorized : Bytes → Bytes → Bytes → Backend W → Option (Bytes × Bytes) × Backend W
  unfolding admit
  authorized ip username password s =
      let address = expand_local_part username cfg.default_mail_domain in
      let email = remote_auth_email address cfg.remote_auth_email_local_part_only in
      let (a, w) = g.perform none [] (authorization email password) s.world in
      admit ip address (token_of g.json a) (record s { world = w })

  -- `Login` for a client whose `ClientIP` is `ip`; `none` is `ErrInvalidCredentials`.
  unfoldable pub login : Bytes → Bytes → Bytes → Backend W → Option (Bytes × Bytes) × Backend W
  unfolding limit_check authorized
  login ip username password s =
      let (free, l) = limit_check (g.now s.world) ip s.limit in
      let s' = record s { limit = l } in
      if free then authorized ip username password s' else (none, s')

  -- The part of the SMTP server's state that IMAP has too.
  abbrev pub backend_of : Bridge W → Backend W
  backend_of b = record { world = b.world; limit = b.limit }

  -- The IMAP login accepts when the SMTP one does, and leaves the same state.
  pub record Agrees (i : Option (Bytes × Bytes) × Backend W) (s : Bool × Bridge W) : Type 0 where
    pub decision : is_some i.0 ≡ s.0
    pub world : i.1.world ≡ s.1.world
    pub limit : i.1.limit ≡ s.1.limit

  admit-world :
      (ip address : Bytes) (o : Option Bytes) (s : Backend W)
      → (admit ip address o s).1.world ≡ s.world
  unfolding admit
  admit-world ip address none s = refl
  admit-world ip address (some token) s = refl

  admit-Agrees :
      (ip addr address : Bytes) (o : Option Bytes) (b : Bridge W)
      → Agrees (admit ip address o (backend_of b)) (finish_login g cfg ip addr o b)
  unfolding admit finish_login
  admit-Agrees ip addr address none b = record { decision = refl; world = refl; limit = refl }
  admit-Agrees ip addr address (some t) b = record { decision = refl; world = refl; limit = refl }

  authorized-Agrees :
      (ip addr username password : Bytes) (b : Bridge W)
      → ((d : ℕ) (token : Bytes) (r : Request) (w : W)
          → g.now (g.perform none token r w).1 ≤ g.now w + d
          → g.perform (some d) token r w ≡ g.perform none token r w)
      → g.now (authorized ip username password (backend_of b)).1.world ≤ g.now b.world + 30000000000
      → Agrees
          (authorized ip username password (backend_of b))
          (log_in g cfg ip addr username password b)
  unfolding authorized log_in expand_local_part
  authorized-Agrees ip addr username password b in_time h =
      let address = expand_local_part username cfg.default_mail_domain in
      let email = remote_auth_email address cfg.remote_auth_email_local_part_only in
      let o = token_of g.json (g.perform none [] (authorization email password) b.world).0 in
      let w = (g.perform none [] (authorization email password) b.world).1 in
      rw
        (
          trim_space_idem username,
          in_time auth_timeout [] (authorization email password) b.world (
              subst (λ (v : W). g.now v ≤ g.now b.world + auth_timeout)
                (admit-world ip address o (record { world = w; limit = b.limit })) h),
        )
        (admit-Agrees ip addr _ _ _)

  -- Where a call that ends within the limit of time that its context sets answers as it does
  -- without the limit, and the IMAP login ends within 30 seconds: for the same credentials, IP and
  -- state, the IMAP and the SMTP server decide alike, and leave the same world and the same login
  -- limit behind.
  pub login-auth_handler :
      (ip addr username password : Bytes) (b : Bridge W)
      → ((d : ℕ) (token : Bytes) (r : Request) (w : W)
          → g.now (g.perform none token r w).1 ≤ g.now w + d
          → g.perform (some d) token r w ≡ g.perform none token r w)
      → g.now (login ip username password (backend_of b)).1.world ≤ g.now b.world + 30000000000
      → Agrees
          (login ip username password (backend_of b))
          (auth_handler g cfg ip addr username password b)
  unfolding login auth_handler may_try
  login-auth_handler ip addr username password b in_time =
      elim (Bool-cases (limit_check (g.now b.world) ip b.limit).0) [
        | inl free ↦
            rw (login, auth_handler, free) (authorized-Agrees ip addr username password _ in_time)
        | inr blocked ↦
            rw (login, auth_handler, blocked)
              (λ h. record { decision = refl; world = refl; limit = refl })
      ]
