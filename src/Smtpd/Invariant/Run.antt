-- ===== src/Smtpd/Invariant/Run.antt =====
-- Every session that `serve` can run keeps the invariant.
use xyecoc_mailbridge.Base.{ℕ, zero, suc, Option, none, some, List, [], ◌∷◌, Bytes}
use xyecoc_mailbridge.Text.{trim_space}
use xyecoc_mailbridge.Smtpd.Syntax.{
  parse_line, Verb, verb_of, helo, ehlo, mail, rcpt, data_verb, quit, rset, noop, xclient,
  help_vrfy_expn, starttls, auth, unknown,
}
use xyecoc_mailbridge.Smtpd.Session.{
  Read, line, timed_out, net_failed, other_failed, Reply, Server, Env, Session,
}
use xyecoc_mailbridge.Smtpd.Mail.{Outcome, continue, stop}
use xyecoc_mailbridge.Smtpd.Serve.{dispatch, command, round, rounds}
use xyecoc_mailbridge.Smtpd.Invariant.{Inv, OutcomeInv, write-Inv, input-Inv}
use xyecoc_mailbridge.Smtpd.Invariant.Mail.{
  helo_case-Inv, ehlo_case-Inv, mail_case-Inv, rcpt_case-Inv, rset_case-Inv,
}
use xyecoc_mailbridge.Smtpd.Invariant.Data.{data_case-Inv}
use xyecoc_mailbridge.Smtpd.Invariant.Auth.{auth_case-Inv, starttls_case-Inv, xclient_case-Inv}

module _ {W : Type 0} (srv : Server W) (env : Env) where
  dispatch-Inv :
      (v : Verb) (args : Bytes) (s : Session W)
      → Inv srv env s
      → OutcomeInv srv env (dispatch srv env v args s)
  unfolding dispatch
  dispatch-Inv helo args s v = helo_case-Inv srv env args s v
  dispatch-Inv ehlo args s v = ehlo_case-Inv srv env args s v
  dispatch-Inv mail args s v = mail_case-Inv srv env args s v
  dispatch-Inv rcpt args s v = rcpt_case-Inv srv env args s v
  dispatch-Inv data_verb args s v = data_case-Inv srv env s v
  dispatch-Inv quit args s v = write-Inv srv env Reply.bye s v
  dispatch-Inv rset args s v = rset_case-Inv srv env s v
  dispatch-Inv noop args s v = write-Inv srv env Reply.ok s v
  dispatch-Inv xclient args s v = xclient_case-Inv srv env args s v
  dispatch-Inv help_vrfy_expn args s v = write-Inv srv env Reply.not_implemented s v
  dispatch-Inv starttls args s v = starttls_case-Inv srv env args s v
  dispatch-Inv auth args s v = auth_case-Inv srv env args s v
  dispatch-Inv unknown args s v = write-Inv srv env Reply.unrecognized s v

  pub round-Inv :
      (i : List Read) (s : Session W) → Inv srv env s → OutcomeInv srv env (round srv env i s)
  unfolding round command
  round-Inv [] s v = v
  round-Inv (line l ∷ rest) s v =
      let parsed = parse_line env.unicode (trim_space l) in
      dispatch-Inv (verb_of parsed.0) parsed.1 _ (input-Inv srv env rest s v)
  round-Inv (timed_out ∷ rest) s v = write-Inv srv env Reply.closing _ (input-Inv srv env rest s v)
  round-Inv (net_failed e ∷ rest) s v = input-Inv srv env rest s v
  round-Inv (other_failed e ∷ rest) s v = input-Inv srv env rest s v

  abbrev ResultInv : Option (Session W) → Type 0
  ResultInv none = Unit
  ResultInv (some t) = Inv srv env t

  abbrev run_on : ℕ → Outcome W → Option (Session W)
  run_on f (stop t) = some t
  run_on f (continue t) = rounds srv env f t

  rounds-Inv : (f : ℕ) (s : Session W) → Inv srv env s → ResultInv (rounds srv env f s)
  unfolding rounds
  rounds-Inv zero s v = tt
  rounds-Inv (suc f) s v = go (round srv env s.input s) (round-Inv s.input s v) (rounds-Inv f)
    where
      go :
          (o : Outcome W)
          → OutcomeInv srv env o
          → ((t : Session W) → Inv srv env t → ResultInv (rounds srv env f t))
          → ResultInv (elim o [ stop t ↦ some t | continue t ↦ rounds srv env f t ])
      go (stop t) w ih = w
      go (continue t) w ih = ih t w
