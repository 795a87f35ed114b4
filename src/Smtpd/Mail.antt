-- ===== src/Smtpd/Mail.antt =====
-- The cases HELO, EHLO, MAIL, RCPT, DATA and RSET of `serve` in internal/mhalesmtpd/smtpd.go.
use xyecoc_mailbridge.Base.{
  ℕ, zero, suc, Bool, true, false, not, ◌&&◌, ◌||◌, Option, none, some, List, [], ◌∷◌, ◌++◌, Bytes,
  codes, is_some, length, ◌==◌, if◌then◌else◌,
}
use xyecoc_mailbridge.Text.{ℤ, pos, negsuc, atoi}
use xyecoc_mailbridge.Smtpd.Syntax.{
  mail_from, mail_size, rcpt_to, is_reply, Mech, plain, login, cram_md5,
}
use xyecoc_mailbridge.Smtpd.Session.{
  Reply, delivered, Server, Env, Session, log, write, reset, permitted, mech_allowed,
}
use xyecoc_mailbridge.Smtpd.Data.{
  DataResult, received, data_timeout, data_net_failed, data_failed, data_too_big, read_data,
  exceeds,
}

-- What a round of the loop ends in: the next round, or the return from `serve`.
pub data Outcome (W : Type 0) : Type 0 where
  continue stop : Session W → Outcome W

abbrev pub is_empty_list : List Bytes → Bool
is_empty_list [] = true
is_empty_list (r ∷ rs) = false

-- `MaxRecipients`, which RCPT sets to 100 where it is 0.
unfoldable pub recipient_limit : {W : Type 0} → Server W → ℤ
recipient_limit srv = elim srv.max_recipients [
  | pos zero ↦ pos 100
  | pos (suc n) ↦ pos (suc n)
  | negsuc n ↦ negsuc n
]

-- Is the number of recipients the limit? It never is a negative one.
unfoldable pub at_limit : ℤ → ℕ → Bool
at_limit (pos limit) n = n == limit
at_limit (negsuc limit) n = false

module _ {W : Type 0} (srv : Server W) (env : Env) where
  -- The mechanisms that EHLO lists, if there is a handler.
  unfoldable pub listed : Mech → Bytes → Session W → List Bytes
  unfolding mech_allowed
  listed m name s = if mech_allowed srv m s then name ∷ [] else []

  unfoldable pub advertised : Session W → List Bytes
  unfolding listed
  advertised s =
      if is_some srv.auth_handler
      then listed login (codes "LOGIN") s
        ++ (listed plain (codes "PLAIN") s ++ listed cram_md5 (codes "CRAM-MD5") s)
      else []

  unfoldable pub helo_case : Bytes → Session W → Session W
  unfolding write reset
  helo_case args s = reset (write (Reply.greets args) (record s { remote_name = args }))

  unfoldable pub ehlo_case : Bytes → Session W → Session W
  unfolding write reset advertised
  ehlo_case args s = reset (
      write (Reply.ehlo args srv.max_size (srv.tls_config && not s.tls) (advertised s))
        (record s { remote_name = args }))

  unfoldable pub accept_sender : Bytes → Session W → Session W
  unfolding write
  accept_sender address s = write Reply.sender_ok (record s { from = address; got_from = true })

  -- The SIZE parameter, once `Atoi` has read it.
  unfoldable pub check_size : Bytes → Option ℤ → Session W → Session W
  unfolding write accept_sender exceeds
  check_size address none s = write Reply.bad_size s
  check_size address (some (pos n)) s =
      if exceeds srv.max_size n
      then write (Reply.size_exceeded srv.max_size) s
      else accept_sender address s
  check_size address (some (negsuc n)) s = accept_sender address s

  unfoldable pub size_match : Bytes → Option Bytes → Session W → Session W
  unfolding check_size write
  size_match address none s = write Reply.bad_size s
  size_match address (some digits) s = check_size address (atoi digits) s

  unfoldable pub mail_match : Option (Bytes × Option Bytes) → Session W → Session W
  unfolding size_match accept_sender write
  mail_match none s = write Reply.bad_from s
  mail_match (some (address, none)) s = accept_sender address s
  mail_match (some (address, some params)) s = size_match address (mail_size params) s

  -- MAIL behind its prologue. Whatever the outcome, the recipients are dropped.
  unfoldable pub mail_body : Bytes → Session W → Session W
  unfolding mail_match
  mail_body args s = record (mail_match (mail_from args) s) { to = [] }

  unfoldable pub mail_case : Bytes → Session W → Session W
  unfolding permitted mail_body
  mail_case args = permitted srv (mail_body args)

  unfoldable pub accept_recipient : Bytes → Session W × Bool → Session W
  unfolding write
  accept_recipient address (s, accept) =
      if accept
      then write Reply.recipient_ok (record s { to = s.to ++ (address ∷ []) })
      else write Reply.unavailable s

  unfoldable pub ask_recipient :
      Option (W → Bytes → Bytes → W × Bool) → Bytes → Session W → Session W × Bool
  ask_recipient none address s = (s, true)
  ask_recipient (some h) address s =
      let (w, accept) = h s.world s.from address in (record s { world = w }, accept)

  unfoldable pub rcpt_match : Option Bytes → Session W → Session W
  unfolding write recipient_limit at_limit accept_recipient ask_recipient
  rcpt_match none s = write Reply.bad_to s
  rcpt_match (some address) s =
      if at_limit (recipient_limit srv) (length s.to)
      then write Reply.too_many s
      else accept_recipient address (ask_recipient srv.handler_rcpt address s)

  -- RCPT behind its prologue.
  unfoldable pub rcpt_body : Bytes → Session W → Session W
  unfolding rcpt_match write
  rcpt_body args s = if s.got_from then rcpt_match (rcpt_to args) s else write Reply.mail_first s

  unfoldable pub rcpt_case : Bytes → Session W → Session W
  unfolding permitted rcpt_body
  rcpt_case args = permitted srv (rcpt_body args)

  -- `makeHeaders`, for the first recipient.
  unfoldable pub headers : Bytes → Session W → Bytes
  headers recipient s =
      codes "Received: from "
      ++ (s.remote_name
          ++ (codes " ("
              ++ (s.remote_host
                  ++ (codes " ["
                      ++ (s.remote_ip
                          ++ (codes "])\r\n        by "
                              ++ (srv.hostname
                                  ++ (codes " ("
                                      ++ (srv.appname
                                          ++ (codes ") with SMTP\r\n        for <"
                                              ++ (recipient
                                                  ++ (codes ">; "
                                                      ++ (env.date s.events
                                                          ++ codes "\r\n")))))))))))))

  -- The answer to the client after the mail handler's error, and the reset after its success.
  unfoldable pub after_delivery : Option Bytes → Reply → Session W → Session W
  unfolding write reset
  after_delivery none done s = reset (write done s)
  after_delivery (some e) done s =
      write (if is_reply e then Reply.handler_reply e else Reply.unable) s

  unfoldable pub id_reply : Bytes → Reply
  id_reply [] = Reply.ok
  id_reply (c ∷ cs) = Reply.ok_id (c ∷ cs)

  unfoldable pub deliver_with_id :
      Option (W → Bytes → List Bytes → Bytes → W × Bytes × Option Bytes)
      → Bytes
      → Session W
      → Session W
  unfolding after_delivery id_reply log write reset
  deliver_with_id none text s = reset (write Reply.ok s)
  deliver_with_id (some h) text s =
      let (w, id, err) = h s.world s.from s.to text in
      after_delivery err (id_reply id)
        (log (delivered s.from s.to text err) (record s { world = w }))

  unfoldable pub deliver :
      Option (W → Bytes → List Bytes → Bytes → W × Option Bytes) → Bytes → Session W → Session W
  unfolding deliver_with_id after_delivery log
  deliver none text s = deliver_with_id srv.msg_id_handler text s
  deliver (some h) text s =
      let (w, err) = h s.world s.from s.to text in
      after_delivery err Reply.ok (log (delivered s.from s.to text err) (record s { world = w }))

  -- `to[0]`; DATA is refused before it comes here with no recipient.
  unfoldable pub first_of_list : List Bytes → Bytes
  first_of_list [] = []
  first_of_list (r ∷ rs) = r

  unfoldable pub data_read : DataResult → Session W → Outcome W
  unfolding headers deliver write first_of_list
  data_read (received body) s =
      continue (deliver srv.handler (headers (first_of_list s.to) s ++ body) s)
  data_read data_timeout s = stop (write Reply.closing s)
  data_read data_net_failed s = stop s
  data_read data_failed s = continue (write Reply.local_error s)
  data_read data_too_big s = continue (write (Reply.size_exceeded srv.max_size) s)

  -- DATA behind its guards.
  unfoldable pub read_message : Session W → Outcome W
  unfolding data_read write
  read_message s =
      let (result, rest) = read_data env.discard srv.max_size s.input in
      data_read result (record (write Reply.start_input s) { input = rest })

  unfoldable pub data_case : Session W → Outcome W
  unfolding read_message write
  data_case s =
      if srv.tls_config && srv.tls_required && not s.tls
      then continue (write Reply.starttls_first s)
      else if is_some srv.auth_handler && srv.auth_required && not s.authenticated
      then continue (write Reply.auth_first s)
      else if not s.got_from || is_empty_list s.to
      then continue (write Reply.mail_rcpt_first s)
      else read_message s

  unfoldable pub rset_case : Session W → Session W
  unfolding write reset
  rset_case s =
      if srv.tls_config && srv.tls_required && not s.tls
      then write Reply.starttls_first s
      else reset (write Reply.ok s)
