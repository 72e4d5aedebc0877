-- ===== src/Tests/Packets.antt =====
-- The XDP program.
use lanscope.Base.{
  ◌++◌, nat_Eq, list_Eq, none, drop, take, length, some, nat_eq, arith, if◌then◌else◌, [], ◌∷◌,
  contains, Option, ℕ, replicate, List,
}
use lanscope.Kernel.Wire.{Frame}
use lanscope.Capture.{dhcp_packet}
use lanscope.Base.Dict.{insert, get}
use lanscope.Common.Flow.{flow_key_Eq, FlowStats, FlowKey}
use lanscope.Tests.Samples.{some_stats}
use lanscope.Common.{MacAddr}
use lanscope.Kernel.Flows.{counted-Summary, counted, Packet, Summary}
use lanscope.Kernel.{Maps, Kernel}
use lanscope.Base.Text.{codes, Bytes}
use lanscope.Common.Event.{event_payload_len, Event}

-- A kernel that copies what is asked for, with room for every entry and a ring that is never full.
abbrev copying : Bytes → ℕ → ℕ → Option Bytes
copying packet off n =
    if nat_eq (length (take n (drop off packet))) n then some (take n (drop off packet)) else none

abbrev pub roomy : Kernel
roomy = record {
  Seen = List MacAddr;
  seen_get = λ s mac. (s, contains s mac);
  seen_insert = λ s mac. mac ∷ s;
  Flows = List (FlowKey × FlowStats);
  flows_get = λ m key. get key m;
  flows_insert = λ m key s. insert key s m;
  flows_write = λ m key s. insert key s m;
  Ring = List Event;
  reserve = λ r. some (replicate event_payload_len 0);
  submit = λ r ev. ev ∷ r;
  load_bytes = copying;
}

abbrev frame : Bytes
frame = replicate 50 7

abbrev two_packets : List Packet
two_packets =
    record { len = 60; flags = 0x02; time = 5 } ∷ record { len = 1500; flags = 0x10; time = 9 } ∷ []

counted-Summary_example : Summary some_stats two_packets (counted some_stats two_packets)
counted-Summary_example = counted-Summary some_stats two_packets (ground arith) (ground arith)

abbrev pub no_maps : Maps roomy
no_maps = record { seen = []; flows = []; ring = [] }

-- A TCP segment with the flag SYN, from port 40000 to port 443.
abbrev syn_frame : Frame
syn_frame = record {
  dst = (1, 2, 3, 4, 5, 6);
  src = (7, 8, 9, 10, 11, 12);
  ethertype = (8, 0);
  ver_ihl = 0x45;
  tos = 0;
  total_len = (0, 40);
  id_and_offset = (0, 0, 0, 0);
  ttl = 64;
  proto = 6;
  checksum = (0, 0);
  src_ip = (192, 168, 1, 2);
  dst_ip = (192, 168, 1, 1);
}

abbrev segment : Bytes
segment = 156 ∷ 64 ∷ 1 ∷ 187 ∷ replicate 9 0 ++ 2 ∷ replicate 6 0

abbrev offer_packet : Bytes
offer_packet = dhcp_packet (codes "pi") (1 ∷ 3 ∷ []) []
