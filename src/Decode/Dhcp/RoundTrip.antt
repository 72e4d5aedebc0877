-- ===== src/Decode/Dhcp/RoundTrip.antt =====
-- Options that are laid out as a DHCP client lays them out are read back, in order.
use mathlib.Core.List.{append_assoc, append-nil}
use lanscope.Decode.Defs.{Signal}
use lanscope.Base.Text.{Bytes}
use lanscope.Base.{
  ap, ◌∙◌, ◌≤◌, length-append, slice?-append_mid, slice?-append_offset, get_elem?-append_offset,
  zero, sym, suc, arith, ◌<◌, ◌+◌, some, get_elem?-append_mid, [], ◌≡◌, ◌∷◌, length, ◌≢◌, ◌++◌, All,
  ℕ, List,
}
use native.Mathlib.Nat.{add_assoc}
use lanscope.Decode.Dhcp.{
  round, option_body, option_data, option, stop, options_loop, continue, decode, find_options,
  cookie_from, magic_cookie, option_signals, opt_pad, opt_end,
}

-- One option is its code, the length of its contents, and the contents.
abbrev pub encode_options : List (ℕ × Bytes) → Bytes
encode_options [] = []
encode_options ((opt, bytes) ∷ opts) = opt ∷ length bytes ∷ (bytes ++ encode_options opts)

-- The codes of padding and of the end stand for no option.
abbrev pub IsOption : ℕ × Bytes → Type 0
IsOption o = (o.0 ≢ opt_pad) × (o.0 ≢ opt_end)

abbrev pub signals_of : List (ℕ × Bytes) → List Signal
signals_of [] = []
signals_of ((opt, bytes) ∷ opts) = option_signals opt bytes ++ signals_of opts

-- A message: any header that does not hold the first byte of the cookie, the cookie, the options,
-- the end mark, and anything.
abbrev pub message : Bytes → List (ℕ × Bytes) → Bytes → Bytes
message header opts rest = header ++ (magic_cookie ++ (encode_options opts ++ opt_end ∷ rest))

-- One round at an option reads that option.
module _ (pre : Bytes) (opt : ℕ) (bytes rest : Bytes) where
  abbrev at_option : Bytes
  at_option = pre ++ opt ∷ length bytes ∷ (bytes ++ rest)

  option_data-at :
      option_data at_option opt (length pre + 2) (length bytes)
      ≡ option opt bytes (length pre + 2 + length bytes)
  unfolding option_data
  option_data-at = rw (
    slice?-append_offset pre (opt ∷ length bytes ∷ (bytes ++ rest)) 2 (length bytes),
    slice?-append_mid (opt ∷ length bytes ∷ []) bytes rest,
    option_data,
  )

  option_body-at :
      opt ≢ opt_pad
      → opt ≢ opt_end
      → option_body at_option opt (length pre + 1)
        ≡ option opt bytes (length pre + 2 + length bytes)
  unfolding option_body
  option_body-at no_pad no_end = ground (
    arith,
    get_elem?-append_offset pre (opt ∷ length bytes ∷ (bytes ++ rest)) 1,
    add_assoc (length pre) 1 1,
    option_data-at,
  )

  round_option :
      opt ≢ opt_pad
      → opt ≢ opt_end
      → round at_option (length pre) ≡ option opt bytes (length pre + 2 + length bytes)
  unfolding round
  round_option no_pad no_end =
      rw (get_elem?-append_mid pre opt (length bytes ∷ (bytes ++ rest)), round)
        (option_body-at no_pad no_end)

pub round_end : (pre rest : Bytes) → round (pre ++ opt_end ∷ rest) (length pre) ≡ stop
unfolding round option_body
round_end pre rest = rw (get_elem?-append_mid pre opt_end rest, round)

-- The loop stops at these bytes, wherever they stand.
abbrev pub Stops : Bytes → Type 0
Stops tail = (pre : Bytes) → round (pre ++ tail) (length pre) ≡ stop

options_loop-encode :
    (fuel : ℕ) (pre : Bytes) (opts : List (ℕ × Bytes)) (tail : Bytes) (signals : List Signal)
    → Stops tail
    → All IsOption opts
    → length opts < fuel
    → options_loop fuel (pre ++ (encode_options opts ++ tail)) (length pre) signals
      ≡ signals ++ signals_of opts
unfolding options_loop continue
options_loop-encode zero pre opts tail signals stops h lt = absurd (omega arith)
options_loop-encode (suc fuel) pre [] tail signals stops h lt =
    rw (stops pre) (sym (append-nil signals))
options_loop-encode (suc fuel) pre ((opt, bytes) ∷ opts) tail signals stops h lt =
    let pre' = pre ++ opt ∷ length bytes ∷ bytes in
    let behind = encode_options opts ++ tail in
    let here : length pre + 2 + length bytes ≡ length pre' =
      omega (arith, length-append pre (opt ∷ length bytes ∷ bytes)) in
    rw (append_assoc bytes (encode_options opts) tail) (
      rw (round_option pre opt bytes behind h.0.0 h.0.1) (
        rw (here, sym (append_assoc pre (opt ∷ length bytes ∷ bytes) behind))
          (options_loop-encode fuel pre' opts tail (signals ++ option_signals opt bytes) stops h.1
              (omega arith)
            ∙ append_assoc signals (option_signals opt bytes) (signals_of opts))))

cookie_from-header :
    (at : ℕ) (header rest : Bytes)
    → All (λ c. c ≢ 0x63) header
    → cookie_from at (header ++ (magic_cookie ++ rest)) ≡ some (at + length header)
unfolding cookie_from
cookie_from-header at [] rest h = ground arith
cookie_from-header at (c ∷ header) rest h =
    ground (arith, cookie_from-header (at + 1) header rest h.1)

length-opts-le : (opts : List (ℕ × Bytes)) → length opts ≤ length (encode_options opts)
length-opts-le [] = omega arith
length-opts-le ((opt, bytes) ∷ opts) =
    omega (arith, length-opts-le opts, length-append bytes (encode_options opts))

find_options-at :
    (header body : Bytes)
    → All (λ c. c ≢ 0x63) header
    → find_options (header ++ (magic_cookie ++ body)) ≡ some (length (header ++ magic_cookie))
unfolding find_options
find_options-at header body clean =
    rw (cookie_from-header 0 header body clean, find_options)
      (ap some (omega (arith, length-append header magic_cookie)))

-- Options that end where the loop stops are read.
pub decode-options :
    (header : Bytes) (opts : List (ℕ × Bytes)) (tail : Bytes)
    → All (λ c. c ≢ 0x63) header
    → Stops tail
    → All IsOption opts
    → decode (header ++ (magic_cookie ++ (encode_options opts ++ tail))) ≡ signals_of opts
unfolding decode
decode-options header opts tail clean stops h =
    let body = encode_options opts ++ tail in
    let fuel : length opts < length (header ++ (magic_cookie ++ body)) = omega (
      arith,
      length-opts-le opts,
      length-append (encode_options opts) tail,
      length-append header (magic_cookie ++ body),
    ) in
    rw (find_options-at header body clean, decode)
      (rw (sym (append_assoc header magic_cookie body)) (
        options_loop-encode _ (header ++ magic_cookie) opts tail [] stops h
          (rw (append_assoc header magic_cookie body) fuel)))

-- Decoding a message whose header does not hold the first byte of the cookie, and whose options have
-- codes other than those of padding and of the end, gives the signals of its options, in order,
-- whatever follows the end mark.
pub decode-message :
    (header : Bytes) (opts : List (ℕ × Bytes)) (rest : Bytes)
    → All (λ c. c ≢ 0x63) header
    → All IsOption opts
    → decode (message header opts rest) ≡ signals_of opts
decode-message header opts rest clean h =
    decode-options header opts (opt_end ∷ rest) clean (λ pre. round_end pre rest) h
