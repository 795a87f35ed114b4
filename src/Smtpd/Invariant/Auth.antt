-- ===== src/Smtpd/Invariant/Auth.antt =====
-- XCLIENT, STARTTLS and AUTH keep the invariant: `authenticated` is set only by a handler's call
-- that accepted a user.
use xyecoc_mailbridge.Base.{
  ◌≡◌, Bool, true, false, not, ◌&&◌, ◌||◌, Option, none, some, List, [], ◌∷◌, Bytes, codes, eqb,
  is_empty, ltb, length, if◌then◌else◌, arith,
}
use xyecoc_mailbridge.Text.{trim_space, split, cut_byte}
use xyecoc_mailbridge.Smtpd.Syntax.{parse_line, Mech, mech_of, plain, login, cram_md5}
use xyecoc_mailbridge.Smtpd.Session.{
  Reply, Server, Env, Session, timeout, message, LineResult, got, lost, Handshake, established,
  refused, log, read_line, mech_allowed, prompt,
}
use xyecoc_mailbridge.Smtpd.Auth.{
  Handler, AuthResult, check, decoded, answered, ask, argument, check_plain, auth_plain, auth_login,
  check_cram, cram_answer, auth_cram_md5, authenticate,
}
use xyecoc_mailbridge.Smtpd.Mail.{is_empty_list}
use xyecoc_mailbridge.Smtpd.Control.{
  xclient_pair, xclient_args, xclient_remote, known_host, xclient_case, handshake, starttls_case,
  auth_answer, auth_mech, auth_guarded, auth_case,
}
use xyecoc_mailbridge.Smtpd.Invariant.{
  was_accepted, Inv, OutcomeInv, write-Inv, if-Inv, input-Inv, outcome-if, none-Within,
  recipient_limit,
}

module _ {W : Type 0} (srv : Server W) (env : Env) where
  -- A session that may enter an authentication handler.
  abbrev Ready : Session W → Type 0
  Ready s = Inv srv env s × (s.got_from ≡ false)

  -- What a handler may return.
  abbrev Good : AuthResult W → Type 0
  Good r = Ready r.0 × (r.1 ≡ true → was_accepted r.0.events ≡ true)

  check-Good :
      (h : Handler W) (m : Mech) (user password shared : Bytes) (s : Session W)
      → Ready s
      → Good (check env h m user password shared s)
  unfolding check log
  check-Good h m user password shared s v = ground arith

  decoded-Good :
      (b : Option Bytes) (k : Bytes → Session W → AuthResult W) (s : Session W)
      → Ready s
      → ((a : Bytes) (t : Session W) → Ready t → Good (k a t))
      → Good (decoded env b k s)
  unfolding decoded
  decoded-Good none k s v h = (v, λ e. cc)
  decoded-Good (some b) k s v h = h b s v

  answered-Good :
      (s : Session W) (l : LineResult) (k : Bytes → Session W → AuthResult W)
      → Ready s
      → ((a : Bytes) (t : Session W) → Ready t → Good (k a t))
      → Good (answered env (s, l) k)
  unfolding answered
  answered-Good s (got l) k v h = h l s v
  answered-Good s (lost e) k v h = (v, λ p. cc)

  ask-Good :
      (text : Bytes) (k : Bytes → Session W → AuthResult W) (s : Session W)
      → Ready s
      → ((a : Bytes) (t : Session W) → Ready t → Good (k a t))
      → Good (ask env text k s)
  unfolding ask read_line
  ask-Good text k s v h =
      answered-Good _ _ k (input-Inv srv env _ _ (write-Inv srv env (prompt text) s v.0), v.1) h

  argument-Good :
      (arg text : Bytes) (k : Bytes → Session W → AuthResult W) (s : Session W)
      → Ready s
      → ((a : Bytes) (t : Session W) → Ready t → Good (k a t))
      → Good (argument env arg text k s)
  unfolding argument
  argument-Good [] text k s v h = ask-Good text k s v h
  argument-Good (c ∷ cs) text k s v h = h (c ∷ cs) s v

  check_plain-Good :
      (h : Handler W) (parts : List Bytes) (s : Session W)
      → Ready s
      → Good (check_plain env h parts s)
  unfolding check_plain
  check_plain-Good h (a ∷ b ∷ c ∷ []) s v = check-Good h plain b c [] s v
  check_plain-Good h _ s v = (v, λ e. cc)

  auth_plain-Good :
      (h : Handler W) (arg : Bytes) (s : Session W) → Ready s → Good (auth_plain env h arg s)
  unfolding auth_plain
  auth_plain-Good h arg s v =
      argument-Good arg [] _ s v
        λ a t w. decoded-Good (env.decode64 a) _ t w λ text. check_plain-Good h (split 0 text)

  auth_login-Good :
      (h : Handler W) (arg : Bytes) (s : Session W) → Ready s → Good (auth_login env h arg s)
  unfolding auth_login
  auth_login-Good h arg s v = argument-Good arg _ _ s v λ a t w.
      decoded-Good (env.decode64 a) _ t w λ user t' w'.
        ask-Good _ _ t' w' λ b r x.
          decoded-Good (env.decode64 b) _ r x λ password. check-Good h login user password []

  check_cram-Good :
      (h : Handler W) (shared : Bytes) (parts : List Bytes) (s : Session W)
      → Ready s
      → Good (check_cram env h shared parts s)
  unfolding check_cram
  check_cram-Good h shared (a ∷ b ∷ rest) s v = check-Good h cram_md5 a b shared s v
  check_cram-Good h shared _ s v = (v, λ e. cc)

  if-Good : (b : Bool) (x y : AuthResult W) → Good x → Good y → Good (if b then x else y)
  if-Good true x y h k = h
  if-Good false x y h k = k

  cram_answer-Good :
      (h : Handler W) (shared l : Bytes) (s : Session W)
      → Ready s
      → Good (cram_answer env h shared l s)
  unfolding cram_answer
  cram_answer-Good h shared l s v =
      if-Good (eqb l (codes "*")) _ _ (v, λ e. cc)
        (decoded-Good (env.decode64 l) _ s v λ text. check_cram-Good h shared (split b' ' text))

  authenticate-Good :
      (m : Mech) (hostname : Bytes) (h : Handler W) (arg : Bytes) (s : Session W)
      → Ready s
      → Good (authenticate env m hostname h arg s)
  unfolding authenticate auth_cram_md5
  authenticate-Good plain hostname h arg s v = auth_plain-Good h arg s v
  authenticate-Good login hostname h arg s v = auth_login-Good h arg s v
  authenticate-Good cram_md5 hostname h arg s v = ask-Good _ _ s v (cram_answer-Good h _)

  auth_answer-Inv : (r : AuthResult W) → Good r → OutcomeInv srv env (auth_answer srv env r)
  unfolding auth_answer
  auth_answer-Inv (s, ok, some timeout) g = ground arith
  auth_answer-Inv (s, ok, some (message e)) g = ground arith
  auth_answer-Inv (s, ok, none) g = ground arith

  auth_mech-Inv :
      (m : Option Mech) (h : Handler W) (arg : Bytes) (s : Session W)
      → Ready s
      → OutcomeInv srv env (auth_mech srv env m h arg s)
  unfolding auth_mech
  auth_mech-Inv none h arg s v = write-Inv srv env Reply.auth_type s v.0
  auth_mech-Inv (some m) h arg s v =
      outcome-if srv env (mech_allowed srv m s) _ _
        (λ _. auth_answer-Inv _ (authenticate-Good m srv.hostname h arg s v))
        λ _. write-Inv srv env Reply.auth_type s v.0

  auth_guarded-Inv :
      (h : Option (Handler W)) (args : Bytes) (s : Session W)
      → Inv srv env s
      → OutcomeInv srv env (auth_guarded srv env h args s)
  unfolding auth_guarded
  auth_guarded-Inv none args s v = write-Inv srv env Reply.not_implemented s v
  auth_guarded-Inv (some h) args s v =
      let mech = (parse_line env.unicode args).0 in
      outcome-if srv env s.authenticated _ _
        (λ _. write-Inv srv env Reply.already_authenticated s v)
        λ _.
          outcome-if srv env (s.got_from || not (is_empty_list s.to)) _ _
            (λ _. write-Inv srv env Reply.auth_in_mail s v)
            λ idle.
              outcome-if srv env (is_empty mech) _ _
                (λ _. write-Inv srv env Reply.auth_argument s v)
                λ _. auth_mech-Inv (mech_of mech) h _ s (v, ground arith)

  pub auth_case-Inv :
      (args : Bytes) (s : Session W) → Inv srv env s → OutcomeInv srv env (auth_case srv env args s)
  unfolding auth_case
  auth_case-Inv args s v =
      outcome-if srv env (srv.tls_config && srv.tls_required && not s.tls) _ _
        (λ _. write-Inv srv env Reply.starttls_first s v)
        λ _. auth_guarded-Inv srv.auth_handler args s v

  handshake-Inv :
      (h : Handshake) (s : Session W) → Inv srv env s → Inv srv env (handshake srv env h s)
  unfolding handshake
  handshake-Inv (refused rest) s v = ground arith
  handshake-Inv (established rest) s v = (ground (arith, none-Within (recipient_limit srv)))

  pub starttls_case-Inv :
      (args : Bytes) (s : Session W) → Inv srv env s → Inv srv env (starttls_case srv env args s)
  unfolding starttls_case
  starttls_case-Inv args s v =
      if-Inv srv env (not (is_empty args)) _ _ (λ _. write-Inv srv env Reply.no_parameters s v)
        λ _.
          if-Inv srv env (not srv.tls_config) _ _ (λ _. write-Inv srv env Reply.not_implemented s v)
            λ _.
              if-Inv srv env s.tls _ _ (λ _. write-Inv srv env Reply.tls_in_use s v)
                λ _. handshake-Inv (env.start_tls s.input) _ (write-Inv srv env Reply.ready_tls s v)

  xclient_pair-Inv :
      (kv : Option (Bytes × Bytes)) (s : Session W)
      → Inv srv env s
      → Inv srv env (xclient_pair srv env kv s)
  unfolding xclient_pair
  xclient_pair-Inv none s v = v
  xclient_pair-Inv (some (k, x)) s v = record {
    few = v.few;
    ordered = v.ordered;
    known = v.known;
    mail_known = v.mail_known;
    lawful = v.lawful;
  }

  xclient_args-Inv :
      (args : List Bytes) (s : Session W)
      → Inv srv env s
      → Inv srv env (xclient_args srv env args s)
  unfolding xclient_args
  xclient_args-Inv [] s v = v
  xclient_args-Inv (a ∷ rest) s v =
      xclient_args-Inv rest _ (xclient_pair-Inv (cut_byte b'=' (trim_space a)) s v)

  xclient_remote-Inv : (s : Session W) → Inv srv env s → Inv srv env (xclient_remote srv env s)
  unfolding xclient_remote
  xclient_remote-Inv s v = if-Inv srv env (ltb 7 (length s.x_client_addr)) _ _ (λ _. moved) (λ _. v)
    where
      moved : Inv srv env (record s {
        remote_ip = s.x_client_addr;
        remote_host =
            if ltb 4 (length s.x_client_name)
            then s.x_client_name
            else known_host srv env (env.lookup_host s.x_client_addr);
      })
      moved = record {
        few = v.few;
        ordered = v.ordered;
        known = v.known;
        mail_known = v.mail_known;
        lawful = v.lawful;
      }

  pub xclient_case-Inv :
      (args : Bytes) (s : Session W) → Inv srv env s → Inv srv env (xclient_case srv env args s)
  unfolding xclient_case
  xclient_case-Inv args s v =
      let start : Session W = record s { x_client = args } in
      let w : Inv srv env start = record {
        few = v.few;
        ordered = v.ordered;
        known = v.known;
        mail_known = v.mail_known;
        lawful = v.lawful;
      } in
      write-Inv srv env Reply.ok _ (
        if-Inv srv env s.x_client_trust _ _
          (λ _. xclient_remote-Inv _ (xclient_args-Inv (split b' ' args) start w)) λ _. w)
