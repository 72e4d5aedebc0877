-- ===== src/Decode/Mdns.antt =====
-- lanscope/src/decode/mdns.rs: services and hosts in an mDNS packet.
use lanscope.Base.Text.{starts_with, strip_suffix, is_empty, contains_str, Bytes}
use lanscope.Base.{some, none, ◌&&◌, [], ◌||◌, ◌++◌, not, ◌∷◌, if◌then◌else◌, List}
use lanscope.Decode.Defs.{Signal, hostname, service}
use lanscope.Decode.Dns.{extract_names, tcp_mark, udp_mark, local_suffix}

host_signal : Bytes → List Signal
host_signal host =
    if not (is_empty host) && not (starts_with host (b'_' ∷ [])) then hostname host ∷ [] else []

-- The body of the `for` loop.
unfoldable pub name_signals : Bytes → List Signal
unfolding host_signal contains_str
name_signals name =
    if contains_str name tcp_mark || contains_str name udp_mark
    then service name ∷ []
    else elim (strip_suffix name local_suffix) [ none ↦ [] | some host ↦ host_signal host ]

signals_of : List Bytes → List Signal
unfolding name_signals
signals_of [] = []
signals_of (name ∷ names) = name_signals name ++ signals_of names

unfoldable pub decode : Bytes → List Signal
unfolding signals_of extract_names
decode payload = signals_of (extract_names payload)
