-- ===== src/Capture/Select.antt =====
-- `select_backend` of lanscope/src/capture/mod.rs.
use mathlib.Core.Path.{subst}
pub mod Fallback
use lanscope.Base.{◌≡◌, inl, inr, Bool, true, false, some, refl}
use lanscope.Base.Text.{codes, Bytes}
use lanscope.Error.{Result, ok, err}
use lanscope.App.Config.{Config}
use lanscope.Capture.Portable.{PortableBackend, new_portable}
use lanscope.Capture.Ebpf.Attach.{Aya, EbpfBackend, new_ebpf, prog_name, default_mode, skb_mode}

module _ (aya : Aya) where
  open aya use {Ebpf, Program, Xdp, load, program_mut, try_into, load_program, attach}

  -- `Box<dyn CaptureBackend>`
  pub data CaptureBackend : Type 0 where
    in_kernel : EbpfBackend aya → CaptureBackend
    portable : PortableBackend → CaptureBackend

  -- `name`
  unfoldable pub name : CaptureBackend → Bytes
  name (in_kernel b) = codes "ebpf-xdp"
  name (portable b) = codes "portable"

  or_portable : Config → Result (EbpfBackend aya) → CaptureBackend
  unfolding new_portable
  or_portable config (ok b) = in_kernel b
  or_portable config (err e) = portable (new_portable config)

  -- `select_backend`; the flag is the feature `ebpf` of the build.
  unfoldable pub select_backend : Bool → Config → Result CaptureBackend
  unfolding or_portable
  select_backend false config = ok (portable (new_portable config))
  select_backend true config = ok (or_portable config (new_ebpf aya config))
