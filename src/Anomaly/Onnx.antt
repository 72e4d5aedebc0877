-- ===== src/Anomaly/Onnx.antt =====
-- lanscope/src/anomaly/onnx.rs: the ONNX classifier as a detector. The runtime (`ort`) is a
-- parameter, and so is the loading of a model.
use lanscope.Base.Decimal.{to_string}
use lanscope.Netfmt.{fmt_ipv4}
use lanscope.Base.Text.{codes, Bytes}
use lanscope.Base.{◌∷◌, ◌++◌, if◌then◌else◌, some, none, [], ℕ, Option, List}
use lanscope.Base.Float.{Floats}
use lanscope.Common.Flow.{FlowKey, FlowStats}
use lanscope.Features.{extract}
use lanscope.Alert.{Alert, new_alert, critical}

-- A session of the runtime. A run may fail; its outputs come in order, each with the values of the
-- tensor where it is a tensor of floats.
pub record Inference (fl : Floats) : Type 1 where
  pub Session : Type 0
  pub run_session : Session → List fl.F32 → Session × Option (List (Option (List fl.F32)))

module _ (fl : Floats) (inf : Inference fl) where
  open fl use {F32, literal32, le32, print_two_places}
  open inf use {Session, run_session}

  pub record OnnxDetector : Type 0 where
    pub session : Session
    pub threshold : F32

  -- `from_path`, once the session is there
  abbrev pub with_session : Session → OnnxDetector
  with_session session = record { session = session; threshold = literal32 5 1 }

  last_value : List F32 → Option F32
  last_value [] = none
  last_value (x ∷ []) = some x
  last_value (x ∷ y ∷ xs) = last_value (y ∷ xs)

  or_next : Option F32 → Option F32 → Option F32
  or_next (some p) rest = some p
  or_next none rest = rest

  -- The last value of the first output that is a tensor of floats with a value.
  unfoldable pub first_score : List (Option (List F32)) → Option F32
  unfolding last_value or_next
  first_score [] = none
  first_score (none ∷ outputs) = first_score outputs
  first_score (some values ∷ outputs) = or_next (last_value values) (first_score outputs)

  score_of : Option (List (Option (List F32))) → Option F32
  unfolding first_score
  score_of none = none
  score_of (some outputs) = first_score outputs

  unfoldable pub score : OnnxDetector → List F32 → OnnxDetector × Option F32
  unfolding score_of
  score det feats =
      let (session, outputs) = run_session det.session feats in
      (record det { session = session }, score_of outputs)

  ml_message : FlowKey → F32 → Bytes
  ml_message key p =
      codes "ML classifier flagged flow from "
      ++ (fmt_ipv4 key.src_ip
          -- " → :", with the bytes of the arrow
          ++ ((0x20 ∷ 0xE2 ∷ 0x86 ∷ 0x92 ∷ 0x20 ∷ 0x3A ∷ [])
              ++ (to_string key.dst_port
                  ++ (codes " (score " ++ (print_two_places p ++ codes ")")))))

  flagged : OnnxDetector → FlowKey → ℕ → Option F32 → List Alert
  unfolding ml_message
  flagged det key now none = []
  flagged det key now (some p) =
      if le32 det.threshold p
      then new_alert now none critical (codes "ml_malicious") (ml_message key p) ∷ []
      else []

  unfoldable pub on_flow : OnnxDetector → FlowKey → FlowStats → ℕ → OnnxDetector × List Alert
  unfolding flagged score extract
  on_flow det key stats now =
      let (det', p) = score det (extract fl key stats) in (det', flagged det key now p)
