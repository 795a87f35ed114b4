-- ===== src/Smtpd/Progress.antt =====
-- No case of `serve` in internal/mhalesmtpd/smtpd.go gives reads back, so the loop ends.
pub mod Auth
use xyecoc_mailbridge.Base.{
  ℕ, zero, suc, ◌≤◌, ◌≡◌, refl, Bool, true, false, not, ◌&&◌, ◌||◌, Option, none, some, List, [],
  ◌∷◌, ◌++◌, Bytes, is_some, is_empty, length, ◌==◌, if◌then◌else◌, arith, Option-cases, inl, inr,
  ◌+◌, ◌∙◌, ap,
}
use xyecoc_mailbridge.Text.{ℤ, pos, negsuc, atoi, split, cut_byte, trim_space}
use xyecoc_mailbridge.Smtpd.Syntax.{mail_from, mail_size, rcpt_to}
use xyecoc_mailbridge.Smtpd.Session.{
  Read, line, timed_out, net_failed, other_failed, Reply, Server, Env, Handshake, established,
  refused, Session, write, log, reset, permitted,
}
use xyecoc_mailbridge.Smtpd.Data.{
  DataResult, received, data_timeout, data_net_failed, data_failed, data_too_big, read_data,
  read_data_onto, is_end, unstuff, exceeds,
}
use xyecoc_mailbridge.Smtpd.Mail.{
  Outcome, continue, stop, check_size, size_match, mail_match, mail_body, mail_case,
  accept_recipient, ask_recipient, rcpt_match, rcpt_body, rcpt_case, after_delivery, deliver,
  deliver_with_id, data_read, read_message, data_case, rset_case, recipient_limit, is_empty_list,
  at_limit,
}
use xyecoc_mailbridge.Smtpd.Control.{
  xclient_pair, xclient_args, xclient_remote, xclient_case, handshake, starttls_case,
}

-- The reads that a handshake leaves.
abbrev pub reads_after : Handshake → List Read
reads_after (established rest) = rest
reads_after (refused rest) = rest

-- The network does not invent reads: dropping what is buffered and a handshake leave no more reads
-- than there were.
pub record Shrinks (env : Env) : Type 0 where
  pub discards : (l : List Read) → length (env.discard l) ≤ length l
  pub shakes : (l : List Read) → length (reads_after (env.start_tls l)) ≤ length l

module _ {W : Type 0} (srv : Server W) (env : Env) where
  mail_match-input :
      (m : Option (Bytes × Option Bytes)) (s : Session W) → (mail_match srv env m s).input ≡ s.input
  unfolding mail_match
  mail_match-input none s = refl
  mail_match-input (some (a, none)) s = refl
  mail_match-input (some (a, some p)) s = sizes (mail_size p)
    where
      checked : (n : Option ℤ) → (check_size srv env a n s).input ≡ s.input
      checked none = refl
      checked (some (pos n)) = ground arith
      checked (some (negsuc n)) = refl

      sizes : (d : Option Bytes) → (size_match srv env a d s).input ≡ s.input
      sizes none = refl
      sizes (some d) = checked (atoi d)

  permitted-input :
      (k : Session W → Session W) (s : Session W)
      → (k s).input ≡ s.input
      → (permitted srv k s).input ≡ s.input
  unfolding permitted
  permitted-input k s h = ground arith

  pub mail_case-input : (args : Bytes) (s : Session W) → (mail_case srv env args s).input ≡ s.input
  unfolding mail_case mail_body
  mail_case-input args s =
      permitted-input (mail_body srv env args) s (mail_match-input (mail_from args) s)

  rcpt_match-input : (m : Option Bytes) (s : Session W) → (rcpt_match srv env m s).input ≡ s.input
  unfolding rcpt_match
  rcpt_match-input none s = refl
  rcpt_match-input (some a) s = asked srv.handler_rcpt
    where
      asked :
          (h : Option (W → Bytes → Bytes → W × Bool))
          → (if at_limit (recipient_limit srv) (length s.to)
              then write Reply.too_many s
              else accept_recipient srv env a (ask_recipient srv env h a s)).input
            ≡ s.input
      asked none = ground arith
      asked (some h) = ground arith

  pub rcpt_case-input : (args : Bytes) (s : Session W) → (rcpt_case srv env args s).input ≡ s.input
  unfolding rcpt_case rcpt_body
  rcpt_case-input args s =
      permitted-input (rcpt_body srv env args) s (ground (arith, rcpt_match-input (rcpt_to args) s))

  pub rset_case-input : (s : Session W) → (rset_case srv env s).input ≡ s.input
  unfolding rset_case
  rset_case-input s = ground arith

  xclient_args-input :
      (args : List Bytes) (s : Session W) → (xclient_args srv env args s).input ≡ s.input
  unfolding xclient_args
  xclient_args-input [] s = refl
  xclient_args-input (a ∷ rest) s = xclient_args-input rest _ ∙ pair (cut_byte b'=' (trim_space a))
    where
      pair : (kv : Option (Bytes × Bytes)) → (xclient_pair srv env kv s).input ≡ s.input
      pair none = refl
      pair (some (k, x)) = refl

  xclient_remote-input : (s : Session W) → (xclient_remote srv env s).input ≡ s.input
  unfolding xclient_remote
  xclient_remote-input s = ground arith

  pub xclient_case-input :
      (args : Bytes) (s : Session W) → (xclient_case srv env args s).input ≡ s.input
  unfolding xclient_case
  xclient_case-input args s = ground (
    arith,
    xclient_remote-input (xclient_args srv env (split b' ' args) (record s { x_client = args })),
    xclient_args-input (split b' ' args) (record s { x_client = args }),
  )

  -- At most `n` reads are left.
  abbrev pub Left : ℕ → Outcome W → Type 0
  Left n (continue t) = length t.input ≤ n
  Left n (stop t) = length t.input ≤ n

  module _ (shrinks : Shrinks env) where
    pub starttls_case-input :
        (args : Bytes) (s : Session W)
        → length (starttls_case srv env args s).input ≤ length s.input
    unfolding starttls_case
    starttls_case-input args s = shaken (env.start_tls s.input) (shrinks.shakes s.input)
      where
        shaken :
            (h : Handshake)
            → length (reads_after h) ≤ length s.input
            → length
                (if not (is_empty args)
                  then write Reply.no_parameters s
                  else if not srv.tls_config
                  then write Reply.not_implemented s
                  else if s.tls
                  then write Reply.tls_in_use s
                  else handshake srv env h (write Reply.ready_tls s)).input
              ≤ length s.input
        shaken (established rest) h = ground arith
        shaken (refused rest) h = ground arith

    read_data_onto-left :
        (i : List Read) (message : Bytes)
        → length (read_data_onto env.discard srv.max_size message i).1 ≤ length i
    unfolding read_data_onto
    read_data_onto-left [] message = omega arith
    read_data_onto-left (timed_out ∷ rest) message = omega arith
    read_data_onto-left (net_failed e ∷ rest) message = omega arith
    read_data_onto-left (other_failed e ∷ rest) message = omega arith
    read_data_onto-left (line l ∷ rest) message =
        ground (arith, shrinks.discards rest, read_data_onto-left rest (message ++ unstuff l))

    deliver-input :
        (h : Option (W → Bytes → List Bytes → Bytes → W × Option Bytes)) (text : Bytes)
        (s : Session W)
        → (deliver srv env h text s).input ≡ s.input
    unfolding deliver
    deliver-input none text s = ids srv.msg_id_handler
      where
        ids :
            (h : Option (W → Bytes → List Bytes → Bytes → W × Bytes × Option Bytes))
            → (deliver_with_id srv env h text s).input ≡ s.input
        ids none = refl
        ids (some h) = ground arith
    deliver-input (some h) text s = ground arith

    data_read-Left :
        (r : DataResult) (s : Session W) → Left (length s.input) (data_read srv env r s)
    unfolding data_read
    data_read-Left (received body) s =
        omega (arith, ap (length {A = Read}) (deliver-input srv.handler _ s))
    data_read-Left data_timeout s = omega arith
    data_read-Left data_net_failed s = omega arith
    data_read-Left data_failed s = omega arith
    data_read-Left data_too_big s = omega arith

    if-Left :
        (n : ℕ) (b : Bool) (x y : Outcome W) → Left n x → Left n y → Left n (if b then x else y)
    if-Left n true x y h k = h
    if-Left n false x y h k = k

    read_message-Left : (s : Session W) → Left (length s.input) (read_message srv env s)
    unfolding read_message read_data
    read_message-Left s =
        left-mono 0 (read_data_onto-left s.input []) _
          (data_read-Left (read_data env.discard srv.max_size s.input).0 _)
      where
        left-mono : {m n : ℕ} (k : ℕ) → m ≤ n → (o : Outcome W) → Left m o → Left n o
        left-mono k h (continue t) l = omega arith
        left-mono k h (stop t) l = omega arith

    pub data_case-Left : (s : Session W) → Left (length s.input) (data_case srv env s)
    unfolding data_case
    data_case-Left s =
        let n : ℕ = length s.input in
        let same : length s.input ≤ n = omega arith in
        if-Left n (srv.tls_config && srv.tls_required && not s.tls) _ _ same (
          if-Left n (is_some srv.auth_handler && srv.auth_required && not s.authenticated) _ _ same
            (if-Left n (not s.got_from || is_empty_list s.to) _ _ same (read_message-Left s)))
