-- ===== src/Kernel/Counters.antt =====
-- lanscope-ebpf/src/main.rs: the counters of a flow, with their wrap-around.
use Prim.Native.Nat.{bit_and}
use lanscope.Common.Flow.{no_stats, FlowStats}
use lanscope.Base.{nat_Eq, ◌^◌, ◌==◌, ◌%◌, ◌+◌, ltb, if◌then◌else◌, ℕ}

abbrev pub count_flag : ℕ → ℕ → ℕ → ℕ
count_flag tcp_flags bit counter =
    if bit_and tcp_flags bit == 0 then counter else (counter + 1) % 2 ^ 32

unfoldable pub accumulate_flags : FlowStats → ℕ → FlowStats
accumulate_flags stats tcp_flags = record stats {
  syn = count_flag tcp_flags 0x02 stats.syn;
  fin = count_flag tcp_flags 0x01 stats.fin;
  rst = count_flag tcp_flags 0x04 stats.rst;
  ack = count_flag tcp_flags 0x10 stats.ack;
}

-- The length that the statistics keep, in 16 bits
abbrev pub clamp_u16 : ℕ → ℕ
clamp_u16 pkt_len = if ltb 65535 pkt_len then 65535 else pkt_len % 2 ^ 16

-- The entry that `update_flow` writes back through the pointer.
unfoldable pub add_packet : FlowStats → ℕ → ℕ → ℕ → FlowStats
unfolding accumulate_flags
add_packet stats pkt_len tcp_flags now =
    let len16 = clamp_u16 pkt_len in
    accumulate_flags
      (record stats {
        packets = (stats.packets + 1) % 2 ^ 64;
        bytes = (stats.bytes + pkt_len) % 2 ^ 64;
        last_seen_ns = now;
        min_len = if ltb len16 stats.min_len then len16 else stats.min_len;
        max_len = if ltb stats.max_len len16 then len16 else stats.max_len;
      })
      tcp_flags

-- The entry that `update_flow` inserts.
unfoldable pub first_packet : ℕ → ℕ → ℕ → FlowStats
unfolding accumulate_flags
first_packet pkt_len tcp_flags now =
    let len16 = clamp_u16 pkt_len in
    accumulate_flags
      (record no_stats {
        packets = 1;
        bytes = pkt_len;
        first_seen_ns = now;
        last_seen_ns = now;
        min_len = len16;
        max_len = len16;
      })
      tcp_flags
