-- ===== src/Decode/Ssdp/RoundTrip.antt =====
-- The headers of an SSDP message are read back.
use lanscope.Decode.Defs.{Signal}
use lanscope.Base.Text.{to_ascii_uppercase, is_empty, Bytes}
use lanscope.Base.{nat_Eq, [], ◌∷◌, ◌<◌, ◌++◌, ℕ, List, ◌≡◌, ◌≢◌, false, All}
use lanscope.Base.Utf8.{trim}
use lanscope.Decode.Ssdp.{key_signals}

-- A line without a newline in it, with the end of a line behind it.
abbrev pub encode_line : Bytes → Bytes → Bytes
encode_line line rest = line ++ b'\r' ∷ b'\n' ∷ rest

abbrev pub header_line : Bytes × Bytes → Bytes
header_line (key, value) = key ++ b':' ∷ 32 ∷ value

-- The headers, and an empty line behind them.
abbrev pub encode_headers : List (Bytes × Bytes) → Bytes
encode_headers [] = encode_line [] []
encode_headers (header ∷ headers) = encode_line (header_line header) (encode_headers headers)

abbrev pub message : Bytes → List (Bytes × Bytes) → Bytes
message start headers = encode_line start (encode_headers headers)

-- What the headers advertise: the banner of a server, and the type of a notification or an answer.
abbrev pub advertised : List (Bytes × Bytes) → List Signal
advertised [] = []
advertised ((key, value) ∷ headers) =
    key_signals (to_ascii_uppercase key) value ++ advertised headers

-- An ASCII text on one line, in which a byte does not stand.
abbrev pub IsLineWithout : ℕ → Bytes → Type 0
IsLineWithout byte s = All (λ c. (c < 128) × (c ≢ b'\n') × (c ≢ byte)) s

-- A name without a colon and a value that is not empty, both without white space around them.
abbrev pub IsHeader : Bytes × Bytes → Type 0
IsHeader (key, value) =
    IsLineWithout b':' key
    × IsLineWithout b'\n' value
    × (trim key ≡ key)
    × (trim value ≡ value)
    × (is_empty value ≡ false)
