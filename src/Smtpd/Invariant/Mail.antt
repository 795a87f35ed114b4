-- ===== src/Smtpd/Invariant/Mail.antt =====
-- The cases HELO, EHLO, MAIL, RCPT and RSET keep the invariant.
use xyecoc_mailbridge.Base.{
  ◌≡◌, Bool, true, Option, none, some, [], ◌∷◌, Bytes, length, arith, length-append, Option-cases,
  inl, inr, false,
}
use xyecoc_mailbridge.Text.{ℤ, pos, negsuc, atoi}
use xyecoc_mailbridge.Smtpd.Syntax.{mail_from, mail_size, rcpt_to}
use xyecoc_mailbridge.Smtpd.Session.{Reply, Server, Env, Session}
use xyecoc_mailbridge.Smtpd.Mail.{
  recipient_limit, helo_case, ehlo_case, mail_case, mail_body, rcpt_body, mail_match, check_size,
  size_match, accept_recipient, ask_recipient, rcpt_match, rcpt_case, rset_case,
}
use xyecoc_mailbridge.Smtpd.Invariant.{
  needs_auth, Inv, write-Inv, world-Inv, if-Inv, permitted-Inv, at_limit, more-Within, none-Within,
}

module _ {W : Type 0} (srv : Server W) (env : Env) where
  check_size-Inv :
      (address : Bytes) (n : Option ℤ) (s : Session W)
      → Inv srv env s
      → (needs_auth srv ≡ true → s.authenticated ≡ true)
      → Inv srv env (check_size srv env address n s)
  unfolding check_size
  check_size-Inv address none s v a = ground arith
  check_size-Inv address (some (pos n)) s v a = ground arith
  check_size-Inv address (some (negsuc n)) s v a = ground arith

  mail_match-Inv :
      (m : Option (Bytes × Option Bytes)) (s : Session W)
      → Inv srv env s
      → (needs_auth srv ≡ true → s.authenticated ≡ true)
      → Inv srv env (mail_match srv env m s)
  unfolding mail_match
  mail_match-Inv none s v a = ground arith
  mail_match-Inv (some (address, none)) s v a = ground arith
  mail_match-Inv (some (address, some params)) s v a = elim (Option-cases (mail_size params)) [
    | inl e ↦ rw (e, size_match) (write-Inv srv env Reply.bad_size s v)
    | inr (d, e) ↦ rw (e, size_match) (check_size-Inv address (atoi d) s v a)
  ]

  drop_recipients-Inv : (s : Session W) → Inv srv env s → Inv srv env (record s { to = [] })
  drop_recipients-Inv s v = (ground (arith, none-Within (recipient_limit srv)))

  pub mail_case-Inv :
      (args : Bytes) (s : Session W) → Inv srv env s → Inv srv env (mail_case srv env args s)
  unfolding mail_case mail_body
  mail_case-Inv args s v = permitted-Inv srv env (mail_body srv env args) s v λ a.
      drop_recipients-Inv (mail_match srv env (mail_from args) s)
        (mail_match-Inv (mail_from args) s v a)

  accept_recipient-Inv :
      (address : Bytes) (s : Session W) (accept : Bool)
      → Inv srv env s
      → at_limit (recipient_limit srv) (length s.to) ≡ false
      → s.got_from ≡ true
      → Inv srv env (accept_recipient srv env address (s, accept))
  unfolding accept_recipient
  accept_recipient-Inv address s accept v room got = ground (
    arith,
    length-append s.to (address ∷ []),
    more-Within (recipient_limit srv) (length s.to) v.few room,
  )

  ask_recipient-Inv :
      (h : Option (W → Bytes → Bytes → W × Bool)) (address : Bytes) (s : Session W)
      → Inv srv env s
      → at_limit (recipient_limit srv) (length s.to) ≡ false
      → s.got_from ≡ true
      → Inv srv env (accept_recipient srv env address (ask_recipient srv env h address s))
  unfolding ask_recipient
  ask_recipient-Inv none address s v room got = accept_recipient-Inv address s true v room got
  ask_recipient-Inv (some h) address s v room got =
      accept_recipient-Inv address (record s { world = (h s.world s.from address).0 })
        (h s.world s.from address).1 (world-Inv srv env _ s v) room got

  rcpt_match-Inv :
      (m : Option Bytes) (s : Session W)
      → Inv srv env s
      → s.got_from ≡ true
      → Inv srv env (rcpt_match srv env m s)
  unfolding rcpt_match
  rcpt_match-Inv none s v got = write-Inv srv env Reply.bad_to s v
  rcpt_match-Inv (some address) s v got =
      if-Inv srv env (at_limit (recipient_limit srv) (length s.to)) _ _
        (λ _. write-Inv srv env Reply.too_many s v)
        λ room. ask_recipient-Inv srv.handler_rcpt address s v (ground arith) got

  pub rcpt_case-Inv :
      (args : Bytes) (s : Session W) → Inv srv env s → Inv srv env (rcpt_case srv env args s)
  unfolding rcpt_case rcpt_body
  rcpt_case-Inv args s v = permitted-Inv srv env (rcpt_body srv env args) s v λ a.
      if-Inv srv env s.got_from _ _ (rcpt_match-Inv (rcpt_to args) s v)
        λ _. write-Inv srv env Reply.mail_first s v

  pub helo_case-Inv :
      (args : Bytes) (s : Session W) → Inv srv env s → Inv srv env (helo_case srv env args s)
  unfolding helo_case
  helo_case-Inv args s v = (ground (arith, none-Within (recipient_limit srv)))

  pub ehlo_case-Inv :
      (args : Bytes) (s : Session W) → Inv srv env s → Inv srv env (ehlo_case srv env args s)
  unfolding ehlo_case
  ehlo_case-Inv args s v = (ground (arith, none-Within (recipient_limit srv)))

  pub rset_case-Inv : (s : Session W) → Inv srv env s → Inv srv env (rset_case srv env s)
  unfolding rset_case
  rset_case-Inv s v = (ground (arith, none-Within (recipient_limit srv)))
