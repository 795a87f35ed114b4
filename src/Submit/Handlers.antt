-- ===== src/Submit/Handlers.antt =====
-- What the handlers of internal/smtpbridge/submit.go promise.
use xyecoc_mailbridge.Base.{
  Bool, true, Option, none, some, List, Bytes, ◌≡◌, refl, sym, ap, ◌∙◌, if◌then◌else◌, lookup,
  lookup-put, eqb_refl, Bool-cases, inl, inr, is_some,
}
use xyecoc_mailbridge.Remote.{Response, Answer, answered, unreachable, mail_mutation_ok}
use xyecoc_mailbridge.Outgoing.{Outbound}
use xyecoc_mailbridge.Outgoing.Walk.{parse_outbound_mail}
use xyecoc_mailbridge.Submit.{
  Gateway, Config, Bridge, may_try, finish_login, log_in, auth_handler, submission, rejection,
  verdict, send, send_as, mail_handler, mail_timeout,
}

module _ {W : Type 0} (g : Gateway W) (cfg : Config) where
  verdict-none :
      (a : Answer)
      → verdict g cfg a ≡ none
      → (r : Response) × (a ≡ answered r) × (mail_mutation_ok g.json g.unicode r ≡ true)
  unfolding verdict
  verdict-none (unreachable e) h = absurd (cc h)
  verdict-none (answered r) h = elim (Bool-cases (mail_mutation_ok g.json g.unicode r)) [
    | inl good ↦ (r, refl, good)
    | inr bad ↦
        absurd (cc (ap (λ (ok : Bool). if ok then none else some (rejection g cfg r)) bad, h))
  ]

  -- What a message that was taken means: the client has a token, the message was parsed, and the
  -- API, called with that token, answered the call for it with a success.
  unfoldable pub Sent : Bytes → List Bytes → Bytes → Bridge W → Type 0
  Sent addr to letter b =
      (token : Bytes) × (m : Outbound) × (r : Response) × (lookup addr b.tokens ≡ some token)
      × (parse_outbound_mail g.mime g.unicode letter ≡ some m)
      × ((g.perform (some mail_timeout) token (submission g cfg m to) b.world).0 ≡ answered r)
      × (mail_mutation_ok g.json g.unicode r ≡ true)

  mail_handler-verdict :
      (addr : Bytes) (to : List Bytes) (letter : Bytes) (b : Bridge W) (token : Bytes)
      (m : Outbound)
      → lookup addr b.tokens ≡ some token
      → parse_outbound_mail g.mime g.unicode letter ≡ some m
      → (mail_handler g cfg addr to letter b).0
        ≡ verdict g cfg (g.perform (some mail_timeout) token (submission g cfg m to) b.world).0
  unfolding mail_handler send_as send
  mail_handler-verdict addr to letter b token m e f = rw (mail_handler, e, f) refl

  -- When `mailHandler` reports no error, the client at the address had logged in, and the API
  -- answered the call for the message, made with the token of that login, with a success.
  pub mail_handler-Sent :
      (addr : Bytes) (to : List Bytes) (letter : Bytes) (b : Bridge W)
      → (mail_handler g cfg addr to letter b).0 ≡ none
      → Sent addr to letter b
  unfolding mail_handler Sent send_as send
  mail_handler-Sent addr to letter b =
      go (lookup addr b.tokens) (parse_outbound_mail g.mime g.unicode letter) refl refl
    where
      go :
          (o : Option Bytes) (p : Option Outbound)
          → lookup addr b.tokens ≡ o
          → parse_outbound_mail g.mime g.unicode letter ≡ p
          → (mail_handler g cfg addr to letter b).0 ≡ none
          → Sent addr to letter b
      go none p e f = rw (mail_handler, e) (λ h. absurd (cc h))
      go (some token) none e f = rw (mail_handler, e, f) (λ h. absurd (cc h))
      go (some token) (some m) e f = λ h.
          let (r, answer, good) =
            verdict-none (g.perform (some mail_timeout) token (submission g cfg m to) b.world).0
              (sym (mail_handler-verdict addr to letter b token m e f) ∙ h) in
          (token, m, r, e, f, answer, good)

  finish_login-token :
      (ip addr : Bytes) (o : Option Bytes) (b : Bridge W)
      → (finish_login g cfg ip addr o b).0 ≡ true
      → is_some (lookup addr (finish_login g cfg ip addr o b).1.tokens) ≡ true
  unfolding finish_login
  finish_login-token ip addr none b h = absurd (cc h)
  finish_login-token ip addr (some token) b h =
      rw (lookup-put addr addr token b.tokens, eqb_refl addr) refl

  -- When `authHandler` accepts a client, `mailHandler` finds a token for its address: its next
  -- message is not refused for want of authentication.
  pub auth_handler-token :
      (ip addr username password : Bytes) (b : Bridge W)
      → (auth_handler g cfg ip addr username password b).0 ≡ true
      → is_some (lookup addr (auth_handler g cfg ip addr username password b).1.tokens) ≡ true
  unfolding auth_handler log_in
  auth_handler-token ip addr username password b = elim (Bool-cases (may_try g cfg ip b).0) [
    | inl free ↦ rw (auth_handler, free) (finish_login-token ip addr _ _)
    | inr blocked ↦ rw (auth_handler, blocked) (λ h. absurd (cc h))
  ]
