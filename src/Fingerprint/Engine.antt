-- ===== src/Fingerprint/Engine.antt =====
-- lanscope/src/fingerprint/engine.rs: device categories and classifications.
use lanscope.Base.{ℕ}
use lanscope.Base.Text.{Bytes, codes}

pub data Category : Type 0 where
  smart_speaker media_streamer smart_light camera thermostat printer phone : Category
  computer single_board_computer router nas iot_sensor unknown : Category

unfoldable pub as_str : Category → Bytes
as_str smart_speaker = codes "smart-speaker"
as_str media_streamer = codes "media-streamer"
as_str smart_light = codes "smart-light"
as_str camera = codes "camera"
as_str thermostat = codes "thermostat"
as_str printer = codes "printer"
as_str phone = codes "phone"
as_str computer = codes "computer"
as_str single_board_computer = codes "sbc"
as_str router = codes "router"
as_str nas = codes "nas"
as_str iot_sensor = codes "iot-sensor"
as_str unknown = codes "unknown"

-- The confidence is in hundredths: the source's constants have two decimal places, so their order,
-- which is all that the code uses, is that of the hundredths.
pub record Classification : Type 0 where
  pub device_type : Bytes
  pub category : Category
  pub confidence : ℕ
  pub rationale : Bytes
