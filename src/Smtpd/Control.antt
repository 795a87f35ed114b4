-- ===== src/Smtpd/Control.antt =====
-- The cases XCLIENT, STARTTLS and AUTH of `serve` in internal/mhalesmtpd/smtpd.go.
use xyecoc_mailbridge.Base.{
  true, not, ◌&&◌, ◌||◌, Option, none, some, List, [], ◌∷◌, Bytes, codes, eqb, is_empty, length,
  ltb, if◌then◌else◌,
}
use xyecoc_mailbridge.Text.{to_upper, trim_space, split, cut_byte}
use xyecoc_mailbridge.Smtpd.Syntax.{parse_line, Mech, mech_of}
use xyecoc_mailbridge.Smtpd.Session.{
  timeout, message, Reply, Server, Handshake, established, refused, Env, Session, write, reset,
  mech_allowed,
}
use xyecoc_mailbridge.Smtpd.Auth.{Handler, AuthResult, authenticate}
use xyecoc_mailbridge.Smtpd.Mail.{Outcome, continue, stop, is_empty_list}

module _ {W : Type 0} (srv : Server W) (env : Env) where
  -- One `KEY=value` of XCLIENT; `parts` is what stands around the first `=`.
  unfoldable pub xclient_pair : Option (Bytes × Bytes) → Session W → Session W
  unfolding eqb
  xclient_pair none s = s
  xclient_pair (some (k, v)) s =
      let key = to_upper env.unicode (trim_space k) in
      let value = trim_space v in
      let addr = if eqb key (codes "ADDR") && env.is_ip value then value else s.x_client_addr in
      let name =
        if eqb key (codes "NAME") && ltb 0 (length value) && not (eqb value (codes "[UNAVAILABLE]"))
        then value
        else s.x_client_name in
      record s { x_client_addr = addr; x_client_name = name }

  unfoldable pub xclient_args : List Bytes → Session W → Session W
  unfolding xclient_pair
  xclient_args [] s = s
  xclient_args (a ∷ as') s = xclient_args as' (xclient_pair (cut_byte b'=' (trim_space a)) s)

  unfoldable pub known_host : Option Bytes → Bytes
  known_host none = codes "unknown"
  known_host (some h) = h

  unfoldable pub xclient_remote : Session W → Session W
  unfolding known_host
  xclient_remote s =
      if ltb 7 (length s.x_client_addr)
      then record s {
        remote_ip = s.x_client_addr;
        remote_host =
            if ltb 4 (length s.x_client_name)
            then s.x_client_name
            else known_host (env.lookup_host s.x_client_addr);
      }
      else s

  unfoldable pub xclient_case : Bytes → Session W → Session W
  unfolding xclient_args xclient_remote write
  xclient_case args s =
      let s' = record s { x_client = args } in
      write Reply.ok
        (if s.x_client_trust then xclient_remote (xclient_args (split b' ' args) s') else s')

  unfoldable pub handshake : Handshake → Session W → Session W
  unfolding write reset
  handshake (refused rest) s = write Reply.handshake_failed (record s { input = rest })
  handshake (established rest) s = reset (record s { input = rest; tls = true; remote_name = [] })

  unfoldable pub starttls_case : Bytes → Session W → Session W
  unfolding handshake write
  starttls_case args s =
      if not (is_empty args)
      then write Reply.no_parameters s
      else if not srv.tls_config
      then write Reply.not_implemented s
      else if s.tls
      then write Reply.tls_in_use s
      else handshake (env.start_tls s.input) (write Reply.ready_tls s)

  -- The answer to the result of an authentication handler.
  unfoldable pub auth_answer : AuthResult W → Outcome W
  unfolding write
  auth_answer (s, ok, some timeout) = stop (write Reply.closing (record s { authenticated = ok }))
  auth_answer (s, ok, some (message e)) =
      continue (write (Reply.auth_error e) (record s { authenticated = ok }))
  auth_answer (s, ok, none) =
      continue
        (write (if ok then Reply.auth_ok else Reply.auth_invalid) (record s { authenticated = ok }))

  unfoldable pub auth_mech : Option Mech → Handler W → Bytes → Session W → Outcome W
  unfolding auth_answer write
  auth_mech none h arg s = continue (write Reply.auth_type s)
  auth_mech (some m) h arg s =
      if mech_allowed srv m s
      then auth_answer (authenticate env m srv.hostname h arg s)
      else continue (write Reply.auth_type s)

  unfoldable pub auth_guarded : Option (Handler W) → Bytes → Session W → Outcome W
  unfolding auth_mech write
  auth_guarded none args s = continue (write Reply.not_implemented s)
  auth_guarded (some h) args s =
      let (mech, arg) = parse_line env.unicode args in
      if s.authenticated
      then continue (write Reply.already_authenticated s)
      else if s.got_from || not (is_empty_list s.to)
      then continue (write Reply.auth_in_mail s)
      else if is_empty mech
      then continue (write Reply.auth_argument s)
      else auth_mech (mech_of mech) h arg s

  unfoldable pub auth_case : Bytes → Session W → Outcome W
  unfolding auth_guarded write
  auth_case args s =
      if srv.tls_config && srv.tls_required && not s.tls
      then continue (write Reply.starttls_first s)
      else auth_guarded srv.auth_handler args s
