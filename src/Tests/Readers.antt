-- ===== src/Tests/Readers.antt =====
-- The texts and the decoders.
use lanscope.Decode.Ssdp
use lanscope.Decode.Ssdp.RoundTrip
use lanscope.Base.Utf8
use lanscope.Decode.Dhcp
use lanscope.Decode.Dns
use lanscope.Decode.Dns.Names.{extract_names_complete}
use lanscope.Decode.Dns.RoundTrip.{read_name-encode, encode_name, IsLabel}
use lanscope.Decode.Dhcp.RoundTrip.{decode-message, signals_of, message, IsOption}
use lanscope.Base.Text.{join, codes, Bytes}
use lanscope.Base.{
  nat_Eq, list_Eq, ℕ, List, [], ◌∷◌, ◌++◌, ◌≡◌, refl, arith, some, length, All, contains, true, ◌+◌,
}

abbrev laptop_ip : ℕ
laptop_ip = 0xc0a80102

abbrev discover_options : List (ℕ × Bytes)
discover_options =
    (53, 1 ∷ []) ∷ (12, codes "laptop") ∷ (55, 1 ∷ 3 ∷ 6 ∷ []) ∷ (60, codes "MSFT 5.0") ∷ []

discover_options-IsOption : All IsOption discover_options
discover_options-IsOption = ground arith

decode-message_example :
    Dhcp.decode (message (1 ∷ 1 ∷ 6 ∷ 0 ∷ []) discover_options (0 ∷ []))
    ≡ signals_of discover_options
decode-message_example =
    decode-message (1 ∷ 1 ∷ 6 ∷ 0 ∷ []) discover_options (0 ∷ []) (ground arith)
      discover_options-IsOption

abbrev ipp_labels : List Bytes
ipp_labels = codes "_ipp" ∷ codes "_tcp" ∷ codes "local" ∷ []

ipp_labels-IsLabel : All IsLabel ipp_labels
ipp_labels-IsLabel = (
  (ground arith, ground arith, refl),
  ((ground arith, ground arith, refl), ((ground arith, ground arith, refl), tt)),
)

abbrev ipp_query : Bytes
ipp_query = (0 ∷ 0 ∷ []) ++ (encode_name ipp_labels ++ 0 ∷ 12 ∷ [])

read_name-encode_example :
    Dns.read_name ipp_query 2 ≡ some (codes "_ipp._tcp.local", 2 + length (encode_name ipp_labels))
unfolding join
read_name-encode_example = read_name-encode (0 ∷ 0 ∷ []) ipp_labels (0 ∷ 12 ∷ []) ipp_labels-IsLabel

extract_names_complete_example :
    contains (Dns.extract_names ipp_query) (codes "_ipp._tcp.local") ≡ true
unfolding Dns.is_interesting
extract_names_complete_example =
    extract_names_complete ipp_query 2 (codes "_ipp._tcp.local")
      (2 + length (encode_name ipp_labels)) (omega arith) read_name-encode_example refl

abbrev ssdp_headers : List (Bytes × Bytes)
ssdp_headers =
    (codes "Host", codes "239.255.255.250:1900")
    ∷ (codes "Server", codes "Linux/3.14 UPnP/1.0")
    ∷ (codes "nt", codes "upnp:rootdevice")
    ∷ []
