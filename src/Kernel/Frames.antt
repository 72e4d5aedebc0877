-- ===== src/Kernel/Frames.antt =====
-- What an Ethernet frame adds to the flow table.
use lanscope.Kernel.Wire.{two_bytes, six, Six}
use lanscope.Common.Flow.{flow_key_Eq}
use lanscope.Kernel.Flows.{Packet}
use lanscope.Base.{nat_Eq, some, none, ◌≡◌, ◌≢◌, ℕ, ◌∷◌}
use lanscope.Base.Text.{Bytes}
use lanscope.Kernel.{Kernel}

module _ (k : Kernel) where
  open k use {Flows, flows_get, load_bytes}

  -- The ports and the TCP flags behind the IPv4 header: zeros where that header cannot be copied, and
  -- for the other protocols.
  pub data Ports (packet : Bytes) (l4 : ℕ) : ℕ → ℕ → ℕ → ℕ → Type 0 where
    of_tcp :
        (src dst : ℕ × ℕ) (flags : ℕ) (seq_ack : Six) (more two : ℕ) (offset : ℕ) (rest : Bytes)
        → load_bytes packet l4 16
          ≡ some (src.0 ∷ src.1 ∷ dst.0 ∷ dst.1 ∷ six seq_ack (more ∷ two ∷ offset ∷ flags ∷ rest))
        → Ports packet l4 6 (two_bytes src) (two_bytes dst) flags
    of_udp :
        (src dst : ℕ × ℕ) (rest : Bytes)
        → load_bytes packet l4 8 ≡ some (src.0 ∷ src.1 ∷ dst.0 ∷ dst.1 ∷ rest)
        → Ports packet l4 17 (two_bytes src) (two_bytes dst) 0
    of_unread_tcp : load_bytes packet l4 16 ≡ none → Ports packet l4 6 0 0 0
    of_unread_udp : load_bytes packet l4 8 ≡ none → Ports packet l4 17 0 0 0
    of_none : (proto : ℕ) → proto ≢ 6 → proto ≢ 17 → Ports packet l4 proto 0 0 0
