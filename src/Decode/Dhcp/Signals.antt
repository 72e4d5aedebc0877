-- ===== src/Decode/Dhcp/Signals.antt =====
-- What a DHCP payload can yield, whatever its bytes.
use lanscope.Base.Decimal.{to_string}
use lanscope.Base.Utf8.{is_utf8, trim_matches, trim}
use lanscope.Decode.Defs.{seen, service, dhcp_vendor_class, dhcp_fingerprint, hostname, Signal}
use lanscope.Base.Text.{join, is_empty, Bytes}
use lanscope.Base.{
  not, ◌&&◌, if◌then◌else◌, nat_Eq, true, length, inr, All-append, inl, ◌==◌, Option-cases, Bool,
  All-if, map, ◌∷◌, zero, false, [], ◌≢◌, suc, List, All, ℕ,
}
use lanscope.Decode.Dhcp.{
  opt_vendor_class, stop, opt_param_request_list, option, opt_hostname, pad, find_options, round,
  Round, option_signals, options_loop, continue, decode,
}

-- A decoded signal is one of the three DHCP facts, with a text that is not empty.
abbrev pub IsDhcpSignal : Signal → Type 0
IsDhcpSignal (hostname h) = h ≢ []
IsDhcpSignal (dhcp_fingerprint f) = f ≢ []
IsDhcpSignal (dhcp_vendor_class v) = v ≢ []
IsDhcpSignal (service s) = ⊥
IsDhcpSignal seen = ⊥

-- A text that is reported is not empty.
one_signal-IsDhcpSignal :
    (b : Bool) (s : Bytes) (signal : Bytes → Signal)
    → (s ≢ [] → IsDhcpSignal (signal s))
    → All IsDhcpSignal (if b && not (is_empty s) then signal s ∷ [] else [])
one_signal-IsDhcpSignal false s signal h = tt
one_signal-IsDhcpSignal true [] signal h = tt
one_signal-IsDhcpSignal true (c ∷ s) signal h = (h (λ e. cc), tt)

option_signals-IsDhcpSignal :
    (opt : ℕ) (bytes : Bytes) → All IsDhcpSignal (option_signals opt bytes)
unfolding option_signals
option_signals-IsDhcpSignal opt bytes =
    All-if IsDhcpSignal (opt == opt_hostname) _ _
      (one_signal-IsDhcpSignal (is_utf8 bytes) (trim (trim_matches 0 bytes)) hostname (λ n. n))
      (All-if IsDhcpSignal (opt == opt_param_request_list) _ _
        (one_signal-IsDhcpSignal true (join (b',' ∷ []) (map to_string bytes)) dhcp_fingerprint
          (λ n. n))
        (All-if IsDhcpSignal (opt == opt_vendor_class) _ _
          (one_signal-IsDhcpSignal (is_utf8 bytes) (trim bytes) dhcp_vendor_class (λ n. n)) tt))

continue-IsDhcpSignal :
    (r : Round) (signals : List Signal) (loop : ℕ → List Signal → List Signal)
    → ((j : ℕ) (s : List Signal) → All IsDhcpSignal s → All IsDhcpSignal (loop j s))
    → All IsDhcpSignal signals
    → All IsDhcpSignal (continue r signals loop)
unfolding continue
continue-IsDhcpSignal stop signals loop k h = h
continue-IsDhcpSignal (pad j) signals loop k h = k j signals h
continue-IsDhcpSignal (option opt bytes j) signals loop k h =
    k j _ (All-append IsDhcpSignal signals _ h (option_signals-IsDhcpSignal opt bytes))

options_loop-IsDhcpSignal :
    (fuel : ℕ) (payload : Bytes) (i : ℕ) (signals : List Signal)
    → All IsDhcpSignal signals
    → All IsDhcpSignal (options_loop fuel payload i signals)
unfolding options_loop
options_loop-IsDhcpSignal zero payload i signals h = h
options_loop-IsDhcpSignal (suc fuel) payload i signals h =
    continue-IsDhcpSignal (round payload i) signals (options_loop fuel payload)
      (λ j s. options_loop-IsDhcpSignal fuel payload j s) h

-- Whatever the payload, the DHCP decoder reports only host names, fingerprints and vendor classes, and
-- none with an empty text.
pub decode-IsDhcpSignal : (payload : Bytes) → All IsDhcpSignal (decode payload)
unfolding decode
decode-IsDhcpSignal payload = elim (Option-cases (find_options payload)) [
  | inl missing ↦ rw (missing, decode) tt
  | inr (start, found) ↦
      rw (found, decode) (options_loop-IsDhcpSignal (length payload) payload start [] tt)
]
