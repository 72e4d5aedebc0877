-- ===== src/Decode/Ssdp.antt =====
-- lanscope/src/decode/ssdp.rs: the banner and the advertised types of an SSDP message.
pub mod RoundTrip
use lanscope.Base.Utf8.{trim, from_utf8_lossy}
use lanscope.Base.Text.{to_ascii_uppercase, codes, is_empty, strip_suffix, split_once, Bytes}
use lanscope.Base.{
  some, none, nat_Eq, list_Eq, ◌||◌, nat_Eq, ◌==◌, ◌++◌, ◌∷◌, if◌then◌else◌, [], List,
}
use lanscope.Decode.Defs.{Signal, service}

-- `text.lines()`: the pieces between newlines; a line that a newline ends loses one carriage return
-- too, and nothing follows the last newline.
strip_return : Bytes → Bytes
strip_return line = elim (strip_suffix line (b'\r' ∷ [])) [ none ↦ line | some s ↦ s ]

lines_from : Bytes → Bytes → List Bytes
unfolding strip_return
lines_from line [] = if is_empty line then [] else line ∷ []
lines_from line (c ∷ s) =
    let next = strip_return line ∷ lines_from [] s in
    let same = lines_from (line ++ c ∷ []) s in if c == b'\n' then next else same

unfoldable pub lines : Bytes → List Bytes
unfolding lines_from
lines = lines_from []

-- The `match` on the key.
unfoldable pub key_signals : Bytes → Bytes → List Signal
key_signals key value =
    if key == codes "SERVER"
    then service (codes "server=" ++ value) ∷ []
    else if key == codes "NT" || key == codes "ST"
    then service value ∷ []
    else []

header_signals : Bytes → Bytes → List Signal
unfolding key_signals
header_signals key value =
    if is_empty (trim value) then [] else key_signals (to_ascii_uppercase (trim key)) (trim value)

-- The body of the `for` loop.
unfoldable pub line_signals : Bytes → List Signal
unfolding header_signals split_once
line_signals line = elim (split_once b':' line) [
  | none ↦ []
  | some (key, value) ↦ header_signals key value
]

signals_of : List Bytes → List Signal
unfolding line_signals
signals_of [] = []
signals_of (line ∷ rest) = line_signals line ++ signals_of rest

unfoldable pub decode : Bytes → List Signal
unfolding signals_of lines
decode payload = signals_of (lines (from_utf8_lossy payload))
