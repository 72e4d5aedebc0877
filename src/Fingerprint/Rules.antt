-- ===== src/Fingerprint/Rules.antt =====
-- lanscope/src/fingerprint/rules.rs: the rule-based fingerprinter.
pub mod Best
use mathlib.Core.Option
use lanscope.Base.Text.{to_ascii_lowercase, contains_str, codes, Bytes}
use lanscope.Base.{ltb, some, if◌then◌else◌, ◌∷◌, ◌++◌, ℕ, none, [], Option, List}
use lanscope.Fingerprint.Engine.{
  Category, smart_speaker, media_streamer, smart_light, printer, phone, computer,
  single_board_computer, router, nas, iot_sensor, Classification,
}
use lanscope.Registry.{Device}

pub record Rule : Type 0 where
  pub needle : Bytes
  pub device_type : Bytes
  pub category : Category
  pub confidence : ℕ

abbrev rule : Bytes → Bytes → Category → ℕ → Rule
rule needle device_type category confidence = record {
  needle = needle;
  device_type = device_type;
  category = category;
  confidence = confidence;
}

unfoldable pub rules : List Rule
rules =
    rule (codes "amazonecho") (codes "Amazon Echo") smart_speaker 95
    ∷ rule (codes "_googlecast") (codes "Google Chromecast") media_streamer 92
    ∷ rule (codes "googlecast") (codes "Google Chromecast") media_streamer 90
    ∷ rule (codes "sonos") (codes "Sonos Speaker") smart_speaker 92
    ∷ rule (codes "roku") (codes "Roku Streamer") media_streamer 90
    ∷ rule (codes "_raop") (codes "AirPlay Device") media_streamer 85
    ∷ rule (codes "_airplay") (codes "AirPlay Device") media_streamer 85
    ∷ rule (codes "spotify-connect") (codes "Spotify Speaker") smart_speaker 80
    ∷ rule (codes "philips hue") (codes "Philips Hue Bridge") smart_light 92
    ∷ rule (codes "_hue") (codes "Philips Hue Bridge") smart_light 90
    ∷ rule (codes "lifx") (codes "LIFX Bulb") smart_light 90
    ∷ rule (codes "_ipp") (codes "Network Printer") printer 90
    ∷ rule (codes "_pdl-datastream") (codes "Network Printer") printer 90
    ∷ rule (codes "_printer") (codes "Network Printer") printer 90
    ∷ rule (codes "diskstation") (codes "Synology NAS") nas 90
    ∷ rule (codes "_smb") (codes "File Server / NAS") nas 60
    ∷ rule (codes "_raspberrypi") (codes "Raspberry Pi") single_board_computer 85
    ∷ rule (codes "_homekit") (codes "HomeKit Accessory") iot_sensor 70
    ∷ rule (codes "_hap") (codes "HomeKit Accessory") iot_sensor 70
    ∷ rule (codes "android-dhcp") (codes "Android Phone/Tablet") phone 85
    ∷ rule (codes "msft 5.0") (codes "Windows PC") computer 80
    ∷ rule (codes "raspberry pi") (codes "Raspberry Pi") single_board_computer 70
    ∷ rule (codes "espressif") (codes "ESP32/ESP8266 Module") iot_sensor 70
    ∷ rule (codes "nest labs") (codes "Nest Device") iot_sensor 60
    ∷ rule (codes "lifx") (codes "LIFX Bulb") smart_light 65
    ∷ rule (codes "amazon") (codes "Amazon Device") smart_speaker 55
    ∷ rule (codes "philips") (codes "Philips Smart Device") smart_light 55
    ∷ rule (codes "tp-link") (codes "TP-Link Device") router 50
    ∷ rule (codes "apple") (codes "Apple Device") computer 50
    ∷ rule (codes "google") (codes "Google Device") media_streamer 50
    ∷ []

push_text : Option Bytes → Bytes
unfolding to_ascii_lowercase
push_text none = []
push_text (some s) = to_ascii_lowercase s ++ b'\n' ∷ []

push_texts : List Bytes → Bytes
unfolding push_text
push_texts [] = []
push_texts (s ∷ rest) = push_text (some s) ++ push_texts rest

unfoldable pub build_haystack : Device → Bytes
unfolding push_texts
build_haystack d =
    push_text d.vendor
    ++ (push_text d.dhcp_vendor_class ++ (push_text d.hostname ++ push_texts d.services))

-- `filter(|r| haystack.contains(r.needle))`
unfoldable pub matching : Bytes → List Rule → List Rule
unfolding contains_str
matching haystack [] = []
matching haystack (r ∷ rest) =
    let others = matching haystack rest in
    if contains_str haystack r.needle then r ∷ others else others

-- `max_by(|a, b| a.confidence.total_cmp(&b.confidence))`: the last of the greatest.
unfoldable pub max_from : Rule → List Rule → Rule
max_from best [] = best
max_from best (r ∷ rest) = max_from (if ltb r.confidence best.confidence then best else r) rest

unfoldable pub max_rule : List Rule → Option Rule
unfolding max_from
max_rule [] = none
max_rule (r ∷ rest) = some (max_from r rest)

unfoldable pub classification : Rule → Classification
classification r = record {
  device_type = r.device_type;
  category = r.category;
  confidence = r.confidence;
  rationale = codes "matched `" ++ (r.needle ++ codes "`");
}

-- `RuleFingerprinter::classify`
unfoldable pub classify : Device → Option Classification
unfolding max_rule matching rules build_haystack classification
classify d = Option.map classification (max_rule (matching (build_haystack d) rules))
