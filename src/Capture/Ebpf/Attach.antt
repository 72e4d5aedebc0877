-- ===== src/Capture/Ebpf/Attach.antt =====
-- `EbpfBackend::new` of lanscope/src/capture/ebpf.rs.
use lanscope.Base.{◌++◌, ◌⊎◌, inl, inr, ℕ, Option, none, some}
use lanscope.Base.Text.{codes, Bytes}
use lanscope.Error.{Error, Result, ok, err, backend_unavailable, ◌>>=◌}
use lanscope.App.Config.{Config}

-- `XdpFlags::default()` and `XdpFlags::SKB_MODE`
pub data XdpFlags : Type 0 where
  default_mode skb_mode : XdpFlags

-- The library `aya`, on the object that the build stages: each call yields the text of its error or
-- its result. `Xdp` is the object with the program that is found in it.
pub record Aya : Type 1 where
  pub Ebpf : Type 0
  pub Program : Type 0
  pub Xdp : Type 0
  pub load : Bytes ⊎ Ebpf
  pub program_mut : Ebpf → Bytes → Option Program
  pub try_into : Program → Bytes ⊎ Xdp
  pub load_program : Xdp → Bytes ⊎ Xdp
  pub attach : Xdp → Bytes → XdpFlags → Bytes ⊎ Ebpf

abbrev pub prog_name : Bytes
prog_name = codes "lanscope"

unavailable : Bytes → Error
unavailable reason = backend_unavailable (codes "ebpf") reason

map_err {ℓ} : {A : Type ℓ} → Bytes → Bytes ⊎ A → Result A
unfolding unavailable
map_err stage (inl e) = err (unavailable (stage ++ e))
map_err stage (inr a) = ok a

ok_or_else {ℓ} : {A : Type ℓ} → Bytes → Option A → Result A
unfolding unavailable
ok_or_else reason none = err (unavailable reason)
ok_or_else reason (some a) = ok a

or_else {ℓ} : {A : Type ℓ} → Bytes ⊎ A → Bytes ⊎ A → Bytes ⊎ A
or_else (inl e) other = other
or_else (inr a) other = inr a

module _ (aya : Aya) where
  open aya use {Ebpf, Program, Xdp, load, program_mut, try_into, load_program, attach}

  pub record EbpfBackend : Type 0 where
    pub ebpf : Ebpf
    pub drain_interval : ℕ

  -- The attempt without offload is on the program as the first attempt left it, which did nothing.
  attach_any : Xdp → Bytes → Bytes ⊎ Ebpf
  unfolding or_else
  attach_any xdp interface =
      or_else (attach xdp interface default_mode) (attach xdp interface skb_mode)

  -- `EbpfBackend::new`
  unfoldable pub new_ebpf : Config → Result EbpfBackend
  unfolding map_err ok_or_else attach_any
  new_ebpf config = do
    ebpf ← map_err (codes "load: ") load
    program ←
        ok_or_else (codes "program `" ++ (prog_name ++ codes "` not found in object"))
          (program_mut ebpf prog_name)
    xdp ← map_err (codes "not an XDP program: ") (try_into program)
    loaded ← map_err (codes "verifier/load: ") (load_program xdp)
    attached ←
        map_err (codes "attach to " ++ (config.interface ++ codes ": "))
          (attach_any loaded config.interface)
    ok (record { ebpf = attached; drain_interval = config.flow_drain_interval })
