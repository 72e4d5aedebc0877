-- ===== src/Decode/Dhcp.antt =====
-- lanscope/src/decode/dhcp.rs: the DHCP options that identify a device.
pub mod Loop
pub mod RoundTrip
pub mod Signals
pub mod Truncated
use lanscope.Base.Decimal.{to_string}
use lanscope.Base.Utf8.{trim_matches, is_utf8, trim}
use lanscope.Base.Text.{is_empty, starts_with, join, Bytes}
use lanscope.Base.{
  not, ◌+◌, ◌&&◌, zero, length, ◌++◌, some, nat_Eq, map, ◌==◌, suc, none, [], ◌∷◌, slice?,
  if◌then◌else◌, get_elem?, Option, List, ℕ,
}
use lanscope.Decode.Defs.{Signal, hostname, dhcp_fingerprint, dhcp_vendor_class}

abbrev pub magic_cookie : Bytes
magic_cookie = 0x63 ∷ 0x82 ∷ 0x53 ∷ 0x63 ∷ []

abbrev pub opt_pad : ℕ
opt_pad = 0

abbrev pub opt_hostname : ℕ
opt_hostname = 12

abbrev pub opt_param_request_list : ℕ
opt_param_request_list = 55

abbrev pub opt_vendor_class : ℕ
opt_vendor_class = 60

abbrev pub opt_end : ℕ
opt_end = 255

-- `payload.windows(4).position(|w| w == MAGIC_COOKIE)`; `at` is the offset of the first window.
cookie_from : ℕ → Bytes → Option ℕ
cookie_from at [] = none
cookie_from at (c ∷ s) =
    if starts_with (c ∷ s) magic_cookie then some at else cookie_from (at + 1) s

-- The offset of the first option byte, just past the cookie.
unfoldable pub find_options : Bytes → Option ℕ
unfolding cookie_from
find_options payload = elim (cookie_from 0 payload) [ none ↦ none | some p ↦ some (p + 4) ]

-- The second `match code`: what one option contributes.
hostname_signal : Bytes → List Signal
hostname_signal bytes =
    let h = trim (trim_matches 0 bytes) in
    if is_utf8 bytes && not (is_empty h) then hostname h ∷ [] else []

fingerprint_signal : Bytes → List Signal
fingerprint_signal bytes =
    let fp = join (b',' ∷ []) (map to_string bytes) in
    if not (is_empty fp) then dhcp_fingerprint fp ∷ [] else []

vendor_class_signal : Bytes → List Signal
vendor_class_signal bytes =
    let v = trim bytes in if is_utf8 bytes && not (is_empty v) then dhcp_vendor_class v ∷ [] else []

unfoldable pub option_signals : ℕ → Bytes → List Signal
unfolding hostname_signal fingerprint_signal vendor_class_signal
option_signals opt bytes =
    if opt == opt_hostname
    then hostname_signal bytes
    else if opt == opt_param_request_list
    then fingerprint_signal bytes
    else if opt == opt_vendor_class
    then vendor_class_signal bytes
    else []

-- What one round of the `while` loop does at offset `i`.
pub data Round : Type 0 where
  stop : Round
  pad : ℕ → Round
  option : ℕ → Bytes → ℕ → Round

-- `payload.get(i..i + len)`, after the code and the length byte.
option_data : Bytes → ℕ → ℕ → ℕ → Round
option_data payload opt i len = elim (slice? payload i len) [
  | none ↦ stop
  | some bytes ↦ option opt bytes (i + len)
]

option_body : Bytes → ℕ → ℕ → Round
unfolding option_data
option_body payload opt i =
    if opt == opt_pad
    then pad i
    else if opt == opt_end
    then stop
    else elim (get_elem? payload i) [ none ↦ stop | some len ↦ option_data payload opt (i + 1) len ]

unfoldable pub round : Bytes → ℕ → Round
unfolding option_body
round payload i = elim (get_elem? payload i) [
  | none ↦ stop
  | some opt ↦ option_body payload opt (i + 1)
]

-- The rest of the loop after a round; `loop` goes on from an offset, with the signals so far.
continue : Round → List Signal → (ℕ → List Signal → List Signal) → List Signal
continue stop signals loop = signals
continue (pad j) signals loop = loop j signals
continue (option opt bytes j) signals loop = loop j (signals ++ option_signals opt bytes)

-- The `while` loop; every round moves `i` on, so as many rounds as there are bytes are enough.
unfoldable pub options_loop : ℕ → Bytes → ℕ → List Signal → List Signal
unfolding continue
options_loop zero payload i signals = signals
options_loop (suc fuel) payload i signals =
    continue (round payload i) signals (options_loop fuel payload)

unfoldable pub decode : Bytes → List Signal
unfolding find_options options_loop round option_signals
decode payload = elim (find_options payload) [
  | none ↦ []
  | some start ↦ options_loop (length payload) payload start []
]
