-- ===== src/Imap/Mailbox/Numbers.antt =====
-- The numbers of internal/imapbackend/mailbox.go: UIDs and the sets of a command.
use xyecoc_mailbridge.Base.{
  ℕ, ◌-◌, ◌^◌, ◌≤◌, ◌<◌, ◌≢◌, true, false, not, ◌&&◌, ◌||◌, some, List, [], ◌∷◌, if◌then◌else◌, ltb,
  ◌==◌, ◌≡◌, arith, All, Bool-cases, inl, inr,
}
use xyecoc_mailbridge.Remote.{MailSummary}
use xyecoc_mailbridge.Imap.Mailbox.{
  uint32, max_uid, next_uid, mailbox_max_seq_and_uid, SeqSet, seq_set_addresses_message,
}

max_uid-ge : (sums : List MailSummary) (m : ℕ) → m ≤ max_uid sums m
unfolding max_uid
max_uid-ge [] m = omega arith
max_uid-ge (s ∷ sums) m = elim (Bool-cases (ltb m (uint32 s.id))) [
  | inl e ↦ rw e (ground (arith, e, max_uid-ge sums (uint32 s.id)))
  | inr e ↦ rw e (max_uid-ge sums m)
]

max_uid-lt :
    (sums : List MailSummary) (m b : ℕ)
    → m < b
    → All (λ s. uint32 s.id < b) sums
    → max_uid sums m < b
unfolding max_uid
max_uid-lt [] m b h a = h
max_uid-lt (s ∷ sums) m b h a = elim (Bool-cases (ltb m (uint32 s.id))) [
  | inl e ↦ rw e (max_uid-lt sums (uint32 s.id) b a.0 a.1)
  | inr e ↦ rw e (max_uid-lt sums m b h a.1)
]

All-max_uid :
    (sums : List MailSummary) (m b : ℕ) → max_uid sums m ≤ b → All (λ s. uint32 s.id ≤ b) sums
unfolding max_uid
All-max_uid [] m b h = tt
All-max_uid (s ∷ sums) m b h =
    let m' : ℕ = if ltb m (uint32 s.id) then uint32 s.id else m in
    (below (uint32 s.id) m (omega (arith, h, max_uid-ge sums m')), All-max_uid sums m' b h)
  where
    below : (u m : ℕ) → (if ltb m u then u else m) ≤ b → u ≤ b
    below u m h = ground (arith, h)

All-imp :
    {P Q : MailSummary → Type 0} (sums : List MailSummary)
    → ((s : MailSummary) → P s → Q s)
    → All P sums
    → All Q sums
All-imp [] h a = tt
All-imp (s ∷ sums) h a = (h s a.0, All-imp sums h a.1)

-- When no message of the mailbox has the UID 2^32 - 1, the UID that `nextUID` announces is above
-- the UID of every message.
pub next_uid-above :
    (sums : List MailSummary)
    → All (λ s. uint32 s.id < 2 ^ 32 - 1) sums
    → All (λ s. uint32 s.id < next_uid sums) sums
unfolding next_uid
next_uid-above sums a =
    All-imp sums (λ s h. omega (arith, h, max_uid-lt sums 0 (2 ^ 32 - 1) (omega arith) a))
      (All-max_uid sums 0 (max_uid sums 0) (omega arith))

-- A set of a UID command that is not empty and holds `*` addresses the largest UID of a mailbox,
-- whatever else it contains, when the mailbox has a message whose UID is not 0 (here the first).
pub star-addresses :
    (set : SeqSet) (s : MailSummary) (sums : List MailSummary)
    → set.empty ≡ false
    → set.dynamic ≡ true
    → uint32 s.id ≢ 0
    → seq_set_addresses_message true
        (some set)
        (max_uid (s ∷ sums) 0)
        (mailbox_max_seq_and_uid (s ∷ sums)).0
        (mailbox_max_seq_and_uid (s ∷ sums)).1
      ≡ true
unfolding seq_set_addresses_message mailbox_max_seq_and_uid
star-addresses set s sums e d n =
    addressed (max_uid (s ∷ sums) 0)
      (omega (arith, n, (All-max_uid (s ∷ sums) 0 (max_uid (s ∷ sums) 0) (omega arith)).0))
  where
    addressed :
        (m : ℕ)
        → m ≢ 0
        → (if set.empty || m == 0
            then false
            else if set.contains m
            then true
            else if set.dynamic
            then not (m == 0) && m == m
            else false)
          ≡ true
    addressed m h = rw (e, d) (ground (arith, h))
