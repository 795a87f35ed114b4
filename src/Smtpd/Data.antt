-- ===== src/Smtpd/Data.antt =====
-- `readData` of internal/mhalesmtpd/smtpd.go: the message behind DATA.
pub mod Dots
use xyecoc_mailbridge.Base.{
  ℕ, ◌+◌, Bool, false, ◌&&◌, ◌||◌, List, [], ◌∷◌, ◌++◌, Bytes, eqb, codes, length, ltb, ◌==◌,
  if◌then◌else◌,
}
use xyecoc_mailbridge.Text.{ℤ, pos, negsuc}
use xyecoc_mailbridge.Smtpd.Session.{Read, line, timed_out, net_failed, other_failed}

pub data DataResult : Type 0 where
  received : Bytes → DataResult
  -- Timeouts and other errors of the network end the session, the rest do not.
  data_timeout data_net_failed data_failed data_too_big : DataResult

-- A line that ends the message.
unfoldable pub is_end : Bytes → Bool
unfolding eqb
is_end l = eqb l (codes ".\r\n") || eqb l (codes ".\n")

-- Removes a leading period.
unfoldable pub unstuff : Bytes → Bytes
unstuff [] = []
unstuff (c ∷ cs) = if c == b'.' then cs else c ∷ cs

-- Is the message above the server's limit, where it has one?
unfoldable pub exceeds : ℤ → ℕ → Bool
exceeds (pos max) size = ltb 0 max && ltb max size
exceeds (negsuc max) size = false

-- The loop, with the message read so far.
unfoldable pub read_data_onto :
    (List Read → List Read) → ℤ → Bytes → List Read → DataResult × List Read
unfolding is_end unstuff exceeds
read_data_onto discard max message [] = (data_failed, [])
read_data_onto discard max message (timed_out ∷ rest) = (data_timeout, rest)
read_data_onto discard max message (net_failed e ∷ rest) = (data_net_failed, rest)
read_data_onto discard max message (other_failed e ∷ rest) = (data_failed, rest)
read_data_onto discard max message (line l ∷ rest) =
    let more = read_data_onto discard max (message ++ unstuff l) rest in
    if is_end l
    then (received message, rest)
    else if exceeds max (length message + length (unstuff l))
    then (data_too_big, discard rest)
    else more

unfoldable pub read_data : (List Read → List Read) → ℤ → List Read → DataResult × List Read
unfolding read_data_onto
read_data discard max = read_data_onto discard max []
