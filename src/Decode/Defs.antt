-- ===== src/Decode/Defs.antt =====
-- lanscope/src/decode/mod.rs: the facts that decoders extract.
use lanscope.Base.{ℕ, Option}
use lanscope.Base.Text.{Bytes}
use lanscope.Common.{MacAddr}

pub data Signal : Type 0 where
  hostname : Bytes → Signal
  service : Bytes → Signal
  dhcp_fingerprint : Bytes → Signal
  dhcp_vendor_class : Bytes → Signal
  seen : Signal

pub record Observation : Type 0 where
  pub mac : MacAddr
  pub ip : Option ℕ
  pub signal : Signal
