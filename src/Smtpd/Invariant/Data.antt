-- ===== src/Smtpd/Invariant/Data.antt =====
-- DATA keeps the invariant: `readData` stays within the size, and the handler's call is lawful.
use xyecoc_mailbridge.Base.{
  not-||-true, ◌≡◌, refl, Bool, true, false, not, ◌&&◌, ◌||◌, Option, none, some, List, [], ◌∷◌,
  ◌++◌, Bytes, is_some, length, arith, length-append, ◌+◌, if◌then◌else◌,
}
use xyecoc_mailbridge.Smtpd.Session.{
  Read, line, timed_out, net_failed, other_failed, Reply, delivered, Server, Env, Session, log,
}
use xyecoc_mailbridge.Smtpd.Data.{
  exceeds, DataResult, received, data_timeout, data_net_failed, data_failed, data_too_big,
  read_data_onto, read_data, is_end, unstuff,
}
use xyecoc_mailbridge.Smtpd.Data.Dots.{exceeds_zero}
use xyecoc_mailbridge.Smtpd.Mail.{
  is_empty_list, after_delivery, deliver, deliver_with_id, id_reply, data_read, data_case,
  read_message,
}
use xyecoc_mailbridge.Smtpd.Invariant.{
  needs_auth, Lawful, Inv, OutcomeInv, write-Inv, input-Inv, outcome-if, Fitting, none-Within,
  recipient_limit, exceeds-FitsSize, Within-FewRecipients,
}

module _ {W : Type 0} (srv : Server W) (env : Env) where
  after_delivery-Inv :
      (err : Option Bytes) (done : Reply) (s : Session W)
      → Inv srv env s
      → Inv srv env (after_delivery srv env err done s)
  unfolding after_delivery
  after_delivery-Inv none done s v = (ground (arith, none-Within (recipient_limit srv)))
  after_delivery-Inv (some e) done s v = write-Inv srv env _ s v

  handed-Inv :
      (w : W) (text : Bytes) (err : Option Bytes) (done : Reply) (s : Session W)
      → Inv srv env s
      → Lawful srv env s.to text s.events
      → Inv srv env (
          after_delivery srv env err done
            (log (delivered s.from s.to text err) (record s { world = w })))
  unfolding log
  handed-Inv w text err done s v l = after_delivery-Inv err done _ (ground arith)

  deliver_with_id-Inv :
      (h : Option (W → Bytes → List Bytes → Bytes → W × Bytes × Option Bytes)) (text : Bytes)
      (s : Session W)
      → Inv srv env s
      → Lawful srv env s.to text s.events
      → Inv srv env (deliver_with_id srv env h text s)
  unfolding deliver_with_id
  deliver_with_id-Inv none text s v l = (ground (arith, none-Within (recipient_limit srv)))
  deliver_with_id-Inv (some h) text s v l =
      let r = h s.world s.from s.to text in handed-Inv r.0 text r.2 (id_reply srv env r.1) s v l

  deliver-Inv :
      (h : Option (W → Bytes → List Bytes → Bytes → W × Option Bytes)) (text : Bytes)
      (s : Session W)
      → Inv srv env s
      → Lawful srv env s.to text s.events
      → Inv srv env (deliver srv env h text s)
  unfolding deliver
  deliver-Inv none text s v l = deliver_with_id-Inv srv.msg_id_handler text s v l
  deliver-Inv (some h) text s v l =
      let r = h s.world s.from s.to text in handed-Inv r.0 text r.1 Reply.ok s v l

  abbrev Fits : DataResult → Type 0
  Fits (received body) = exceeds srv.max_size (length body) ≡ false
  Fits _ = Unit

  -- What a result of `readData` brings along.
  abbrev Brings : DataResult → Type 0
  Brings (received body) = Fitting srv env body
  Brings _ = Unit

  Fits-Brings :
      (i : List Read) (r : DataResult)
      → (read_data env.discard srv.max_size i).0 ≡ r
      → Fits r
      → Brings r
  Fits-Brings i (received body) e h = record {
    reads = i;
    read = e;
    small = exceeds-FitsSize srv.max_size (length body) h;
  }
  Fits-Brings i data_timeout e h = tt
  Fits-Brings i data_net_failed e h = tt
  Fits-Brings i data_failed e h = tt
  Fits-Brings i data_too_big e h = tt

  data_read-Inv :
      (r : DataResult) (s : Session W)
      → Inv srv env s
      → Brings r
      → s.got_from ≡ true
      → is_empty_list s.to ≡ false
      → (needs_auth srv ≡ true → s.authenticated ≡ true)
      → OutcomeInv srv env (data_read srv env r s)
  unfolding data_read
  data_read-Inv (received body) s v f got some_to a = deliver-Inv srv.handler _ s v (record {
    some_recipient = some_to;
    few_recipients = Within-FewRecipients srv (length s.to) v.few;
    accepted = not-||-true (needs_auth srv) _ (λ n. v.known (a n));
    session = s;
    session_to = refl;
    session_events = refl;
    body = body;
    composed = refl;
    fitting = f;
  })
  data_read-Inv data_timeout s v f got some_to a = write-Inv srv env Reply.closing s v
  data_read-Inv data_net_failed s v f got some_to a = v
  data_read-Inv data_failed s v f got some_to a = write-Inv srv env Reply.local_error s v
  data_read-Inv data_too_big s v f got some_to a =
      write-Inv srv env (Reply.size_exceeded srv.max_size) s v

  result-Fits :
      (b c : Bool) (body : Bytes) (more : DataResult × List Read) (rest late : List Read)
      → exceeds srv.max_size (length body) ≡ false
      → (c ≡ false → Fits more.0)
      → Fits (if b then (received body, rest) else if c then (data_too_big, late) else more).0
  result-Fits true c body more rest late h k = h
  result-Fits false true body more rest late h k = tt
  result-Fits false false body more rest late h k = k refl

  read_data_onto-Fits :
      (i : List Read) (message : Bytes)
      → exceeds srv.max_size (length message) ≡ false
      → Fits (read_data_onto env.discard srv.max_size message i).0
  unfolding read_data_onto
  read_data_onto-Fits [] message h = tt
  read_data_onto-Fits (timed_out ∷ rest) message h = tt
  read_data_onto-Fits (net_failed e ∷ rest) message h = tt
  read_data_onto-Fits (other_failed e ∷ rest) message h = tt
  read_data_onto-Fits (line l ∷ rest) message h =
      result-Fits (is_end l) (exceeds srv.max_size (length message + length (unstuff l))) message
        (read_data_onto env.discard srv.max_size (message ++ unstuff l) rest) rest
        (env.discard rest) h
        λ small.
          read_data_onto-Fits rest (message ++ unstuff l)
            (rw (length-append message (unstuff l)) small)

  empty-Fits : exceeds srv.max_size 0 ≡ false
  empty-Fits = exceeds_zero srv.max_size

  read_message-Inv :
      (s : Session W)
      → Inv srv env s
      → s.got_from ≡ true
      → is_empty_list s.to ≡ false
      → (needs_auth srv ≡ true → s.authenticated ≡ true)
      → OutcomeInv srv env (read_message srv env s)
  unfolding read_message read_data
  read_message-Inv s v got some_to a =
      data_read-Inv (read_data env.discard srv.max_size s.input).0 _
        (input-Inv srv env _ _ (write-Inv srv env Reply.start_input s v))
        (Fits-Brings s.input _ refl (read_data_onto-Fits s.input [] empty-Fits)) got some_to a

  pub data_case-Inv : (s : Session W) → Inv srv env s → OutcomeInv srv env (data_case srv env s)
  unfolding data_case
  data_case-Inv s v =
      outcome-if srv env (srv.tls_config && srv.tls_required && not s.tls) _ _
        (λ _. write-Inv srv env Reply.starttls_first s v)
        λ _.
          outcome-if srv env (is_some srv.auth_handler && srv.auth_required && not s.authenticated)
            _ _ (λ _. write-Inv srv env Reply.auth_first s v)
            λ known.
              outcome-if srv env (not s.got_from || is_empty_list s.to) _ _
                (λ _. write-Inv srv env Reply.mail_rcpt_first s v)
                λ ready. read_message-Inv s v (ground arith) (ground arith) (λ n. ground arith)
