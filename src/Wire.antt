-- ===== src/Wire.antt =====
-- internal/protocollog/writer.go: the lines of a connection that are logged.
pub mod Lines
pub mod Chunks
pub mod Secrets
use xyecoc_mailbridge.Base.{
  ℕ, zero, suc, ◌+◌, Bool, true, false, ◌&&◌, ◌||◌, Option, none, some, List, [], ◌∷◌, ◌++◌, Bytes,
  codes, is_empty, if◌then◌else◌, length, take, leb,
}
use xyecoc_mailbridge.Text.{
  crlf, Unicode, to_upper, equal_fold, trim_space, fields, has_prefix, contains, cut, cut_byte,
}

-- The next line: up to the first CR LF or, where there is none, up to the first LF.
unfoldable pub next_line : Bytes → Option (Bytes × Bytes)
unfolding cut cut_byte
next_line s = elim (cut crlf s) [ some p ↦ some p | none ↦ cut_byte b'\n' s ]

-- The loop of `Write`: the lines, and what stays in the buffer. Each round takes a byte at least
-- off the buffer, so its length is enough fuel.
unfoldable pub drain : ℕ → Bytes → List Bytes × Bytes
unfolding next_line
drain zero s = ([], s)
drain (suc f) s = elim (next_line s) [
  | none ↦ ([], s)
  | some (line, rest) ↦ let (lines, left) = drain f rest in (line ∷ lines, left)
]

-- "…", in UTF-8.
abbrev ellipsis : Bytes
ellipsis = 0xE2 ∷ 0x80 ∷ 0xA6 ∷ []

module _ (u : Unicode) where
  unfoldable pub redact_login : List Bytes → Option Bytes
  unfolding equal_fold
  redact_login (tag ∷ verb ∷ user ∷ password ∷ more) =
      if equal_fold u verb (codes "LOGIN")
      then some (tag ++ (codes " LOGIN " ++ (user ++ codes " [redacted]")))
      else none
  redact_login _ = none

  -- `redactIMAPLine`.
  unfoldable pub redact_imap_line : Bytes → Bytes
  unfolding redact_login fields contains to_upper
  redact_imap_line s = elim (redact_login (fields s)) [
    | some t ↦ t
    | none ↦
        if contains (to_upper u s) (codes "AUTHENTICATE")
        then codes "[redacted AUTHENTICATE " ++ (ellipsis ++ codes "]")
        else s
  ]

  -- `RedactSMTP`.
  unfoldable pub redact_smtp : Bytes → Bytes
  unfolding has_prefix contains to_upper
  redact_smtp line =
      let up = to_upper u line in
      if has_prefix up (codes "AUTH ") || contains up (codes "AUTH ")
      then codes "[redacted AUTH " ++ (ellipsis ++ codes "]")
      else line

  -- `emitLine`, in front of what is logged later.
  unfoldable pub emit_line : Bytes → List Bytes → List Bytes
  unfolding redact_imap_line trim_space
  emit_line line later =
      let s = trim_space line in
      if is_empty s
      then later
      else redact_imap_line
          (if leb (length s) 8192 then s else take 8192 s ++ (ellipsis ++ codes "[truncated]"))
        ∷ later

  unfoldable pub emit_lines : List Bytes → List Bytes
  unfolding emit_line
  emit_lines [] = []
  emit_lines (l ∷ ls) = emit_line l (emit_lines ls)

  -- `Write`, on the buffer: what is logged, and the buffer behind it.
  unfoldable pub write : Bytes → Bytes → List Bytes × Bytes
  unfolding drain emit_lines
  write p buf =
      let data' = buf ++ p in
      let (lines, left) = drain (length data') data' in
      if is_empty p then ([], buf) else (emit_lines lines, left)

  -- Several calls of `Write`.
  unfoldable pub write_all : List Bytes → Bytes → List Bytes × Bytes
  unfolding write
  write_all [] buf = ([], buf)
  write_all (p ∷ ps) buf =
      let (logged, buf') = write p buf in
      let (more, buf'') = write_all ps buf' in (logged ++ more, buf'')
