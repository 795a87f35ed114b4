-- ===== src/Smtpd/Data/Dots.antt =====
-- Dot stuffing: what `readData` of internal/mhalesmtpd/smtpd.go makes of what a client should send.
use xyecoc_mailbridge.Base.{
  ℕ, ◌≤◌, ◌≡◌, refl, false, List, [], ◌∷◌, ◌++◌, Bytes, eqb, codes, length, ◌==◌, if◌then◌else◌,
  arith, ◌∙◌, append-nil, append_assoc, length-append, ◌+◌,
}
use xyecoc_mailbridge.Smtpd.Session.{Read, line}
use xyecoc_mailbridge.Smtpd.Data.{
  received, data_too_big, is_end, unstuff, exceeds, read_data_onto, read_data, ℤ, pos, negsuc,
}

-- What a client does to a line (RFC 5321, 4.5.2).
unfoldable pub stuff : Bytes → Bytes
stuff [] = []
stuff (c ∷ cs) = if c == b'.' then b'.' ∷ c ∷ cs else c ∷ cs

unfoldable pub join_lines : List Bytes → Bytes
join_lines [] = []
join_lines (l ∷ ls) = l ++ join_lines ls

-- The reads for a message and what follows it.
unfoldable pub send_message : List Bytes → List Read → List Read
unfolding stuff
send_message [] rest = line (codes ".\r\n") ∷ rest
send_message (l ∷ ls) rest = line (stuff l) ∷ send_message ls rest

unstuff-stuff : (l : Bytes) → unstuff (stuff l) ≡ l
unfolding unstuff stuff
unstuff-stuff [] = refl
unstuff-stuff (c ∷ cs) = ground arith

stuff-not-end : (l : Bytes) → is_end (stuff l) ≡ false
unfolding is_end stuff eqb
stuff-not-end [] = refl
stuff-not-end (c ∷ cs) = ground arith

exceeds_mono : (max : ℤ) (m n : ℕ) → m ≤ n → exceeds max n ≡ false → exceeds max m ≡ false
unfolding exceeds
exceeds_mono (pos max) m n h e = ground arith
exceeds_mono (negsuc max) m n h e = refl

step-line :
    (discard : List Read → List Read) (max : ℤ) (message l : Bytes) (i : List Read)
    → read_data_onto discard max message (line (stuff l) ∷ i) ≡ (
        if exceeds max (length message + length l)
        then (data_too_big, discard i)
        else read_data_onto discard max (message ++ l) i)
unfolding read_data_onto
step-line discard max message l i = rw (stuff-not-end l, unstuff-stuff l)

module _ (discard : List Read → List Read) (max : ℤ) (rest : List Read) where
  received-onto :
      (ls : List Bytes) (message : Bytes) (n : ℕ)
      → length message + length (join_lines ls) ≡ n
      → exceeds max n ≡ false
      → read_data_onto discard max message (send_message ls rest)
        ≡ (received (message ++ join_lines ls), rest)
  unfolding join_lines send_message
  received-onto [] message n e h = rw append-nil (unfold read_data_onto is_end eqb in refl)
  received-onto (l ∷ ls) message n e h =
      let longer = length-append l (join_lines ls) in
      step-line discard max message l (send_message ls rest)
      ∙ rw (exceeds_mono max (length message + length l) n (omega (arith, longer)) h) (
          received-onto ls (message ++ l) n (omega (arith, longer, length-append message l)) h
          ∙ rw append_assoc)

pub exceeds_zero : (max : ℤ) → exceeds max 0 ≡ false
unfolding exceeds
exceeds_zero (pos max) = ground arith
exceeds_zero (negsuc max) = refl

-- Whatever lines a client sends with dots stuffed, whole and within the maximum size, `readData`
-- gives back as they were, and leaves what the client sends next.
pub read_data-send_message :
    (discard : List Read → List Read) (max : ℤ) (ls : List Bytes) (rest : List Read)
    → exceeds max (length (join_lines ls)) ≡ false
    → read_data discard max (send_message ls rest) ≡ (received (join_lines ls), rest)
unfolding read_data
read_data-send_message discard max ls rest h =
    received-onto discard max rest ls [] (length (join_lines ls)) (omega arith) h
