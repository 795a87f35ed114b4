-- ===== src/Smtpd/Auth.antt =====
-- `handleAuthPlain`, `handleAuthLogin` and `handleAuthCramMD5` of internal/mhalesmtpd/smtpd.go.
use xyecoc_mailbridge.Base.{
  Bool, false, Option, none, some, List, [], ◌∷◌, ◌++◌, Bytes, codes, eqb, if◌then◌else◌,
}
use xyecoc_mailbridge.Text.{split}
use xyecoc_mailbridge.Smtpd.Syntax.{Mech, plain, login, cram_md5}
use xyecoc_mailbridge.Smtpd.Session.{
  AuthError, message, checked, prompt, Env, Session, log, write, LineResult, got, lost, read_line,
}

abbrev pub Handler : Type 0 → Type 0
Handler W = W → Mech → Bytes → Bytes → Bytes → W × Bool × Option AuthError

-- What a handler of a mechanism returns, with the session behind it.
abbrev pub AuthResult : Type 0 → Type 0
AuthResult W = Session W × Bool × Option AuthError

module _ {W : Type 0} (env : Env) where
  unfoldable pub failed : Bytes → Session W → AuthResult W
  failed text s = (s, false, some (message text))

  -- The call of `s.srv.AuthHandler`.
  unfoldable pub check : Handler W → Mech → Bytes → Bytes → Bytes → Session W → AuthResult W
  unfolding log
  check h m user password shared s =
      let (w, ok, err) = h s.world m user password shared in
      (log (checked m user ok) (record s { world = w }), ok, err)

  unfoldable pub decoded :
      Option Bytes → (Bytes → Session W → AuthResult W) → Session W → AuthResult W
  unfolding failed
  decoded none k s = failed (codes "501 5.5.2 Syntax error (unable to decode)") s
  decoded (some b) k s = k b s

  -- A line that the client sends in answer to a prompt.
  unfoldable pub answered :
      Session W × LineResult → (Bytes → Session W → AuthResult W) → AuthResult W
  answered (s, got l) k = k l s
  answered (s, lost e) k = (s, false, some e)

  unfoldable pub ask : Bytes → (Bytes → Session W → AuthResult W) → Session W → AuthResult W
  unfolding answered write read_line
  ask text k s = answered (read_line (write (prompt text) s)) k

  -- The argument of AUTH, or else a line that is asked for.
  unfoldable pub argument :
      Bytes → Bytes → (Bytes → Session W → AuthResult W) → Session W → AuthResult W
  unfolding ask
  argument [] text k s = ask text k s
  argument (c ∷ cs) text k s = k (c ∷ cs) s

  unfoldable pub check_plain : Handler W → List Bytes → Session W → AuthResult W
  unfolding check failed
  check_plain h (identity ∷ user ∷ password ∷ []) s = check h plain user password [] s
  check_plain h _ s = failed (codes "501 5.5.2 Syntax error (unable to parse)") s

  unfoldable pub auth_plain : Handler W → Bytes → Session W → AuthResult W
  unfolding argument decoded check_plain
  auth_plain h arg =
      argument arg [] λ a. decoded (env.decode64 a) λ text. check_plain h (split 0 text)

  unfoldable pub auth_login : Handler W → Bytes → Session W → AuthResult W
  unfolding argument decoded ask check
  auth_login h arg = argument arg (env.encode64 (codes "Username:")) λ a.
      decoded (env.decode64 a) λ user.
        ask (env.encode64 (codes "Password:"))
          λ b. decoded (env.decode64 b) λ password. check h login user password []

  unfoldable pub check_cram : Handler W → Bytes → List Bytes → Session W → AuthResult W
  unfolding check failed
  check_cram h shared (user ∷ digest ∷ rest) s = check h cram_md5 user digest shared s
  check_cram h shared _ s = failed (codes "501 5.5.2 Syntax error (unable to parse)") s

  unfoldable pub cram_answer : Handler W → Bytes → Bytes → Session W → AuthResult W
  unfolding decoded check_cram failed eqb
  cram_answer h shared line s =
      if eqb line (codes "*")
      then failed (codes "501 5.7.0 Authentication cancelled") s
      else decoded (env.decode64 line) (λ text. check_cram h shared (split b' ' text)) s

  -- The challenge of the environment is the process and the nanosecond, joined by a dot.
  unfoldable pub auth_cram_md5 : Bytes → Handler W → Session W → AuthResult W
  unfolding ask cram_answer
  auth_cram_md5 hostname h s =
      let shared = b'<' ∷ (env.challenge s.events ++ (b'@' ∷ (hostname ++ codes ">"))) in
      ask (env.encode64 shared) (cram_answer h shared) s

  -- The switch over the mechanism.
  unfoldable pub authenticate : Mech → Bytes → Handler W → Bytes → Session W → AuthResult W
  unfolding auth_plain auth_login auth_cram_md5
  authenticate plain hostname h arg s = auth_plain h arg s
  authenticate login hostname h arg s = auth_login h arg s
  authenticate cram_md5 hostname h arg s = auth_cram_md5 hostname h s
