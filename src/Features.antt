-- ===== src/Features.antt =====
-- lanscope/src/features.rs: the feature vector of a flow.
use lanscope.Base.Text.{codes, Bytes}
use lanscope.Base.{[], ◌∷◌, ℕ, List}
use lanscope.Base.Float.{Floats}
use lanscope.Common.Flow.{FlowKey, FlowStats, duration_secs, bytes_per_sec, mean_packet_len}

abbrev pub feature_count : ℕ
feature_count = 13

abbrev pub feature_names : List Bytes
feature_names =
    codes "duration_secs"
    ∷ codes "packets"
    ∷ codes "bytes"
    ∷ codes "bytes_per_sec"
    ∷ codes "mean_packet_len"
    ∷ codes "min_len"
    ∷ codes "max_len"
    ∷ codes "syn"
    ∷ codes "fin"
    ∷ codes "rst"
    ∷ codes "ack"
    ∷ codes "protocol"
    ∷ codes "dst_port"
    ∷ []

module _ (fl : Floats) where
  open fl use {F32, of_int32, narrow}

  unfoldable pub extract : FlowKey → FlowStats → List F32
  unfolding duration_secs bytes_per_sec mean_packet_len
  extract key stats =
      narrow (duration_secs fl stats)
      ∷ of_int32 stats.packets
      ∷ of_int32 stats.bytes
      ∷ narrow (bytes_per_sec fl stats)
      ∷ narrow (mean_packet_len fl stats)
      ∷ of_int32 stats.min_len
      ∷ of_int32 stats.max_len
      ∷ of_int32 stats.syn
      ∷ of_int32 stats.fin
      ∷ of_int32 stats.rst
      ∷ of_int32 stats.ack
      ∷ of_int32 key.protocol
      ∷ of_int32 key.dst_port
      ∷ []
