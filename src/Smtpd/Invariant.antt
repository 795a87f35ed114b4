-- ===== src/Smtpd/Invariant.antt =====
-- What holds of every session of internal/mhalesmtpd/smtpd.go, whatever the client sends and the
-- handlers answer.
pub mod Mail
pub mod Data
pub mod Auth
pub mod Run
use xyecoc_mailbridge.Base.{
  zero, suc, ℕ, ◌≤◌, ◌≡◌, ◌≢◌, refl, Bool, true, false, not, ◌&&◌, ◌||◌, Option, none, some, List,
  [], ◌∷◌, ◌++◌, Bytes, is_some, length, ltb, leb, arith, length-append, Option-cases, ◌==◌,
  if◌then◌else◌, Bool-cases, inl, inr, ◌+◌,
}
use xyecoc_mailbridge.Text.{ℤ, pos, negsuc, atoi}
use xyecoc_mailbridge.Smtpd.Syntax.{mail_from, mail_size, rcpt_to}
use xyecoc_mailbridge.Smtpd.Session.{
  Read, line, timed_out, net_failed, other_failed, Reply, Event, wrote, checked, delivered, Server,
  Env, Session, log, write, reset, permitted,
}
use xyecoc_mailbridge.Smtpd.Data.{
  exceeds, DataResult, received, data_timeout, data_net_failed, data_failed, data_too_big,
  read_data_onto, read_data, is_end, unstuff,
}
use xyecoc_mailbridge.Smtpd.Mail.{
  Outcome, continue, stop, is_empty_list, recipient_limit, helo_case, ehlo_case, mail_case,
  mail_body, rcpt_body, mail_match, check_size, size_match, accept_recipient, ask_recipient,
  rcpt_match, rcpt_case, rset_case, after_delivery, deliver, deliver_with_id, id_reply, data_read,
  headers, first_of_list, data_case, read_message, at_limit,
}

-- Did the authentication handler accept someone?
abbrev pub was_accepted : List Event → Bool
was_accepted [] = false
was_accepted (wrote r ∷ es) = was_accepted es
was_accepted (checked m u ok ∷ es) = ok || was_accepted es
was_accepted (delivered f t d e ∷ es) = was_accepted es

-- A size within `MaxSize`, which is no limit unless it is positive.
unfoldable pub FitsSize : ℤ → ℕ → Type 0
FitsSize (pos zero) n = Unit
FitsSize (pos (suc max)) n = n ≤ suc max
FitsSize (negsuc max) n = Unit

pub exceeds-FitsSize : (max : ℤ) (n : ℕ) → exceeds max n ≡ false → FitsSize max n
unfolding exceeds FitsSize
exceeds-FitsSize (pos zero) n h = tt
exceeds-FitsSize (pos (suc max)) n h = ground arith
exceeds-FitsSize (negsuc max) n h = tt

-- So many recipients within `MaxRecipients`, which is 100 where it is 0 and none where it is
-- negative.
unfoldable pub FewRecipients : ℤ → ℕ → Type 0
FewRecipients (pos zero) n = n ≤ 100
FewRecipients (pos (suc max)) n = n ≤ suc max
FewRecipients (negsuc max) n = Unit

-- So many recipients are within the limit; a negative one is none.
unfoldable pub Within : ℤ → ℕ → Type 0
Within (pos limit) n = n ≤ limit
Within (negsuc limit) n = Unit

pub Within-FewRecipients :
    {W : Type 0} (srv : Server W) (n : ℕ)
    → Within (recipient_limit srv) n
    → FewRecipients srv.max_recipients n
unfolding Within FewRecipients recipient_limit
Within-FewRecipients srv n = go srv.max_recipients refl
  where
    go :
        (m : ℤ)
        → srv.max_recipients ≡ m
        → Within (recipient_limit srv) n
        → FewRecipients srv.max_recipients n
    go (pos zero) e = rw (recipient_limit, e) (λ h. h)
    go (pos (suc m)) e = rw (recipient_limit, e) (λ h. h)
    go (negsuc m) e = rw (recipient_limit, e) (λ h. h)

pub none-Within : (limit : ℤ) → Within limit 0
unfolding Within
none-Within (pos n) = omega arith
none-Within (negsuc n) = tt

pub more-Within :
    (limit : ℤ) (n : ℕ) → Within limit n → at_limit limit n ≡ false → Within limit (n + 1)
unfolding Within at_limit
more-Within (pos limit) n h room = ground arith
more-Within (negsuc limit) n h room = tt

module _ {W : Type 0} (srv : Server W) where
  abbrev pub needs_auth : Bool
  needs_auth = is_some srv.auth_handler && srv.auth_required

module _ {W : Type 0} (srv : Server W) (env : Env) where
  -- A body that `readData` read, which is within the maximum size if there is one.
  pub record Fitting (body : Bytes) : Type 0 where
    pub reads : List Read
    pub read : (read_data env.discard srv.max_size reads).0 ≡ received body
    pub small : FitsSize srv.max_size (length body)

  -- One call of the mail handler, with what was logged before it.
  pub record Lawful (to : List Bytes) (text : Bytes) (before : List Event) : Type 0 where
    pub some_recipient : is_empty_list to ≡ false
    pub few_recipients : FewRecipients srv.max_recipients (length to)
    pub accepted : (not (needs_auth srv) || was_accepted before) ≡ true
    -- The text is the headers that the session then made, and behind them the body that was read.
    pub session : Session W
    pub session_to : session.to ≡ to
    pub session_events : session.events ≡ before
    pub body : Bytes
    pub composed : text ≡ headers srv env (first_of_list srv env to) session ++ body
    pub fitting : Fitting body

  -- Every call of the mail handler was lawful when it was made.
  abbrev pub AllLawful : List Event → Type 0
  AllLawful [] = Unit
  AllLawful (wrote r ∷ es) = AllLawful es
  AllLawful (checked m u ok ∷ es) = AllLawful es
  AllLawful (delivered f t d e ∷ es) = Lawful t d es × AllLawful es

  pub record Inv (s : Session W) : Type 0 where
    pub few : Within (recipient_limit srv) (length s.to)
    pub ordered : s.got_from ≡ false → is_empty_list s.to ≡ true
    pub known : s.authenticated ≡ true → was_accepted s.events ≡ true
    pub mail_known : needs_auth srv ≡ true → s.got_from ≡ true → s.authenticated ≡ true
    pub lawful : AllLawful s.events

  pub write-Inv : (r : Reply) (s : Session W) → Inv s → Inv (write r s)
  unfolding write
  write-Inv r s v = ground arith

  pub reset-Inv : (s : Session W) → Inv s → Inv (reset s)
  unfolding reset
  reset-Inv s v = ground (arith, none-Within (recipient_limit srv))

  pub world-Inv : (w : W) (s : Session W) → Inv s → Inv (record s { world = w })
  world-Inv w s v = ground arith

  pub if-Inv :
      (b : Bool) (x y : Session W)
      → (b ≡ true → Inv x)
      → (b ≡ false → Inv y)
      → Inv (if b then x else y)
  if-Inv true x y h k = h refl
  if-Inv false x y h k = k refl

  pub permitted-Inv :
      (k : Session W → Session W) (s : Session W)
      → Inv s
      → ((needs_auth srv ≡ true → s.authenticated ≡ true) → Inv (k s))
      → Inv (permitted srv k s)
  unfolding permitted
  permitted-Inv k s v h =
      if-Inv (srv.tls_config && srv.tls_required && not s.tls) _ _
        (λ _. write-Inv Reply.starttls_first s v)
        λ _.
          if-Inv (is_some srv.auth_handler && srv.auth_required && not s.authenticated) _ _
            (λ _. write-Inv Reply.auth_first s v) λ known. h (λ n. ground arith)

  -- What is asked of a round's outcome.
  abbrev pub OutcomeInv : Outcome W → Type 0
  OutcomeInv (continue s) = Inv s
  OutcomeInv (stop s) = Inv s

  pub input-Inv : (i : List Read) (s : Session W) → Inv s → Inv (record s { input = i })
  input-Inv i s v = ground arith

  pub outcome-if :
      (b : Bool) (x y : Outcome W)
      → (b ≡ true → OutcomeInv x)
      → (b ≡ false → OutcomeInv y)
      → OutcomeInv (if b then x else y)
  outcome-if true x y h k = h refl
  outcome-if false x y h k = k refl
