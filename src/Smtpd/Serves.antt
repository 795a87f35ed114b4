-- ===== src/Smtpd/Serves.antt =====
-- `serve` of internal/mhalesmtpd/smtpd.go as a whole: it returns, and what it did was lawful.
use xyecoc_mailbridge.Base.{ℕ, ◌<◌, Option, none, some, length}
use xyecoc_mailbridge.Smtpd.Session.{Server, Env, Session}
use xyecoc_mailbridge.Smtpd.Mail.{Outcome, continue, stop}
use xyecoc_mailbridge.Smtpd.Invariant.{Inv}
use xyecoc_mailbridge.Smtpd.Progress.{Shrinks}

module _ {W : Type 0} (srv : Server W) (env : Env) (shrinks : Shrinks env) where
  -- A round that goes on has consumed a read.
  abbrev Consumed : ℕ → Outcome W → Type 0
  Consumed n (continue t) = length t.input < n
  Consumed n (stop t) = Unit

  -- The loop returns with a session that keeps the invariant.
  abbrev Returns : Option (Session W) → Type 0
  Returns none = ⊥
  Returns (some t) = Inv srv env t
