-- ===== src/Smtpd/Progress/Auth.antt =====
-- AUTH gives no reads back.
use xyecoc_mailbridge.Base.{
  ℕ, ◌≤◌, Bool, true, false, not, ◌&&◌, ◌||◌, Option, none, some, List, [], ◌∷◌, Bytes, codes, eqb,
  is_empty, length, if◌then◌else◌, arith,
}
use xyecoc_mailbridge.Text.{split}
use xyecoc_mailbridge.Smtpd.Syntax.{parse_line, Mech, mech_of, plain, login, cram_md5}
use xyecoc_mailbridge.Smtpd.Session.{
  Read, Server, Env, Session, timeout, message, LineResult, got, lost, write, next_read, read_line,
  prompt, mech_allowed,
}
use xyecoc_mailbridge.Smtpd.Auth.{
  Handler, AuthResult, check, decoded, answered, ask, argument, check_plain, auth_plain, auth_login,
  check_cram, cram_answer, auth_cram_md5, authenticate,
}
use xyecoc_mailbridge.Smtpd.Mail.{Outcome, is_empty_list}
use xyecoc_mailbridge.Smtpd.Control.{auth_answer, auth_mech, auth_guarded, auth_case}
use xyecoc_mailbridge.Smtpd.Progress.{Left}

module _ {W : Type 0} (srv : Server W) (env : Env) (n : ℕ) where
  abbrev Few : Session W → Type 0
  Few s = length s.input ≤ n

  abbrev Next : (Bytes → Session W → AuthResult W) → Type 0
  Next k = (a : Bytes) (t : Session W) → Few t → Few (k a t).0

  check-Few :
      (h : Handler W) (m : Mech) (user password shared : Bytes) (s : Session W)
      → Few s
      → Few (check env h m user password shared s).0
  unfolding check
  check-Few h m user password shared s v = v

  decoded-Few :
      (b : Option Bytes) (k : Bytes → Session W → AuthResult W) (s : Session W)
      → Few s
      → Next k
      → Few (decoded env b k s).0
  unfolding decoded
  decoded-Few none k s v h = v
  decoded-Few (some b) k s v h = h b s v

  next_read-length : (i : List Read) → length (next_read i).1 ≤ length i
  unfolding next_read
  next_read-length [] = omega arith
  next_read-length (r ∷ rs) = omega arith

  answered-Few :
      (s : Session W) (l : LineResult) (k : Bytes → Session W → AuthResult W)
      → Few s
      → Next k
      → Few (answered env (s, l) k).0
  unfolding answered
  answered-Few s (got l) k v h = h l s v
  answered-Few s (lost e) k v h = v

  ask-Few :
      (text : Bytes) (k : Bytes → Session W → AuthResult W) (s : Session W)
      → Few s
      → Next k
      → Few (ask env text k s).0
  unfolding ask read_line
  ask-Few text k s v h =
      let r = read_line (write (prompt text) s) in
      answered-Few r.0 r.1 k (omega (arith, next_read-length s.input)) h

  argument-Few :
      (arg text : Bytes) (k : Bytes → Session W → AuthResult W) (s : Session W)
      → Few s
      → Next k
      → Few (argument env arg text k s).0
  unfolding argument
  argument-Few [] text k s v h = ask-Few text k s v h
  argument-Few (c ∷ cs) text k s v h = h (c ∷ cs) s v

  check_plain-Few :
      (h : Handler W) (parts : List Bytes) (s : Session W)
      → Few s
      → Few (check_plain env h parts s).0
  unfolding check_plain
  check_plain-Few h (a ∷ b ∷ c ∷ []) s v = v
  check_plain-Few h _ s v = v

  check_cram-Few :
      (h : Handler W) (shared : Bytes) (parts : List Bytes) (s : Session W)
      → Few s
      → Few (check_cram env h shared parts s).0
  unfolding check_cram
  check_cram-Few h shared (a ∷ b ∷ rest) s v = v
  check_cram-Few h shared _ s v = v

  if-Few : (b : Bool) (x y : AuthResult W) → Few x.0 → Few y.0 → Few (if b then x else y).0
  if-Few true x y h k = h
  if-Few false x y h k = k

  cram_answer-Few :
      (h : Handler W) (shared l : Bytes) (s : Session W)
      → Few s
      → Few (cram_answer env h shared l s).0
  unfolding cram_answer
  cram_answer-Few h shared l s v =
      if-Few (eqb l (codes "*")) _ _ v
        (decoded-Few (env.decode64 l) _ s v λ text. check_cram-Few h shared (split b' ' text))

  authenticate-Few :
      (m : Mech) (hostname : Bytes) (h : Handler W) (arg : Bytes) (s : Session W)
      → Few s
      → Few (authenticate env m hostname h arg s).0
  unfolding authenticate auth_plain auth_login auth_cram_md5
  authenticate-Few plain hostname h arg s v =
      argument-Few arg [] _ s v
        λ a t w. decoded-Few (env.decode64 a) _ t w λ text. check_plain-Few h (split 0 text)
  authenticate-Few login hostname h arg s v = argument-Few arg _ _ s v λ a t w.
      decoded-Few (env.decode64 a) _ t w λ user t' w'.
        ask-Few _ _ t' w'
          λ b r x. decoded-Few (env.decode64 b) _ r x λ password. check-Few h login user password []
  authenticate-Few cram_md5 hostname h arg s v = ask-Few _ _ s v (cram_answer-Few h _)

  auth_answer-Left : (r : AuthResult W) → Few r.0 → Left srv env n (auth_answer srv env r)
  unfolding auth_answer
  auth_answer-Left (s, ok, some timeout) v = v
  auth_answer-Left (s, ok, some (message e)) v = v
  auth_answer-Left (s, ok, none) v = v

  if-Left :
      (b : Bool) (x y : Outcome W)
      → Left srv env n x
      → Left srv env n y
      → Left srv env n (if b then x else y)
  if-Left true x y h k = h
  if-Left false x y h k = k

  auth_mech-Left :
      (m : Option Mech) (h : Handler W) (arg : Bytes) (s : Session W)
      → Few s
      → Left srv env n (auth_mech srv env m h arg s)
  unfolding auth_mech
  auth_mech-Left none h arg s v = v
  auth_mech-Left (some m) h arg s v =
      if-Left (mech_allowed srv m s) _ _
        (auth_answer-Left (authenticate env m srv.hostname h arg s)
          (authenticate-Few m srv.hostname h arg s v))
        v

  auth_guarded-Left :
      (h : Option (Handler W)) (args : Bytes) (s : Session W)
      → Few s
      → Left srv env n (auth_guarded srv env h args s)
  unfolding auth_guarded
  auth_guarded-Left none args s v = v
  auth_guarded-Left (some h) args s v = if-Left s.authenticated _ _ v (
      if-Left (s.got_from || not (is_empty_list s.to)) _ _ v (
        if-Left (is_empty (parse_line env.unicode args).0) _ _ v
          (auth_mech-Left (mech_of (parse_line env.unicode args).0) h _ s v)))

  pub auth_case-Left :
      (args : Bytes) (s : Session W) → Few s → Left srv env n (auth_case srv env args s)
  unfolding auth_case
  auth_case-Left args s v =
      if-Left (srv.tls_config && srv.tls_required && not s.tls) _ _ v
        (auth_guarded-Left srv.auth_handler args s v)
