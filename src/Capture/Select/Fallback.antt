-- ===== src/Capture/Select/Fallback.antt =====
-- When the backend in the kernel is selected, and when the portable one.
use lanscope.Base.{false, ◌∙◌, sym, some, refl, Option-cases, true, inr, inl, ◌⊎◌, ◌≡◌, Bool}
use lanscope.Base.Text.{Bytes}
use lanscope.Error.{Result-cases, Error, Result, ok, err}
use lanscope.App.Config.{Config}
use mathlib.Core.Path.{subst}
use lanscope.Capture.Portable.{new_portable}
use lanscope.Capture.Select.{select_backend, in_kernel, portable}
use lanscope.Capture.Ebpf.Attach.{Aya, EbpfBackend, new_ebpf, prog_name, default_mode, skb_mode}

outcome {ℓ} : {A : Type ℓ} (x : Bytes ⊎ A) → ((t : Bytes) × (x ≡ inl t)) ⊎ ((a : A) × (x ≡ inr a))
outcome (inl t) = inl (t, refl)
outcome (inr a) = inr (a, refl)

ok-injective {ℓ} : {A : Type ℓ} {a b : A} → ok a ≡ ok b → a ≡ b
ok-injective h = cc

failed {ℓ} : {A : Type ℓ} {e : Error} {a : A} → ¬ (Path (Result A) (err e) (ok a))
failed h = cc

module _ (aya : Aya) where
  open aya use {Ebpf, Program, Xdp, load, program_mut, try_into, load_program, attach}

  -- The program is attached to the interface, in the mode of the driver or, where this fails, in
  -- the generic one.
  pub data IsAttached (xdp : Xdp) (interface : Bytes) (e : Ebpf) : Type 0 where
    by_driver : attach xdp interface default_mode ≡ inr e → IsAttached xdp interface e
    by_skb :
        (text : Bytes)
        → attach xdp interface default_mode ≡ inl text
        → attach xdp interface skb_mode ≡ inr e
        → IsAttached xdp interface e

  -- Every stage succeeds, up to an attached program.
  pub data IsUsable (config : Config) : EbpfBackend aya → Type 0 where
    usable :
        (object attached : Ebpf) (program : Program) (xdp loaded : Xdp)
        → load ≡ inr object
        → program_mut object prog_name ≡ some program
        → try_into program ≡ inr xdp
        → load_program xdp ≡ inr loaded
        → IsAttached loaded config.interface attached
        → IsUsable config (record { ebpf = attached; drain_interval = config.flow_drain_interval })

  usable-new_ebpf :
      (config : Config) (b : EbpfBackend aya) → IsUsable config b → new_ebpf aya config ≡ ok b
  unfolding new_ebpf
  usable-new_ebpf config _ (usable object attached program xdp loaded l p x v (by_driver a)) =
      rw (l, p, x, v, a) refl
  usable-new_ebpf config _ (usable object attached program xdp loaded l p x v (by_skb text f a)) =
      rw (l, p, x, v, f, a) refl

  -- The stages from the object on, each split on what the library yields.
  attached-IsUsable :
      (config : Config) (b : EbpfBackend aya) (object : Ebpf) (program : Program) (xdp loaded : Xdp)
      → load ≡ inr object
      → program_mut object prog_name ≡ some program
      → try_into program ≡ inr xdp
      → load_program xdp ≡ inr loaded
      → new_ebpf aya config ≡ ok b
      → IsUsable config b
  unfolding new_ebpf
  attached-IsUsable config b object program xdp loaded l p x v eq =
      elim (outcome (attach loaded config.interface default_mode)) [
        | inr (e, a) ↦
            subst (IsUsable config) (ok-injective (rw (l, p, x, v, a) at eq))
              (usable object e program xdp loaded l p x v (by_driver a))
        | inl (text, f) ↦ elim (outcome (attach loaded config.interface skb_mode)) [
          | inr (e, a) ↦
              subst (IsUsable config) (ok-injective (rw (l, p, x, v, f, a) at eq))
                (usable object e program xdp loaded l p x v (by_skb text f a))
          | inl (t, g) ↦ absurd (failed (rw (l, p, x, v, f, g) at eq))
        ]
      ]

  new_ebpf-IsUsable :
      (config : Config) (b : EbpfBackend aya) → new_ebpf aya config ≡ ok b → IsUsable config b
  unfolding new_ebpf
  new_ebpf-IsUsable config b eq = elim (outcome load) [
    | inl (t, l) ↦ absurd (failed (rw l at eq))
    | inr (object, l) ↦ elim (Option-cases (program_mut object prog_name)) [
      | inl p ↦ absurd (failed (rw (l, p) at eq))
      | inr (program, p) ↦ elim (outcome (try_into program)) [
        | inl (t, x) ↦ absurd (failed (rw (l, p, x) at eq))
        | inr (xdp, x) ↦ elim (outcome (load_program xdp)) [
          | inl (t, v) ↦ absurd (failed (rw (l, p, x, v) at eq))
          | inr (loaded, v) ↦ attached-IsUsable config b object program xdp loaded l p x v eq
        ]
      ]
    ]
  ]

  -- The backend in the kernel is selected exactly if the build has it and every stage up to an
  -- attached program succeeds, in one of the two modes; otherwise, whatever fails, the portable one
  -- is, in the mode that was asked for. The selection itself never fails.
  pub select_backend_exact :
      (feature : Bool) (config : Config)
      → ((b : EbpfBackend aya) × (select_backend aya feature config ≡ ok (in_kernel b))
          × (feature ≡ true)
          × IsUsable config b)
        ⊎ ((select_backend aya feature config ≡ ok (portable (new_portable config)))
            × ((b : EbpfBackend aya) → feature ≡ true → ¬ IsUsable config b))
  unfolding select_backend
  select_backend_exact false config = inr (refl, λ b h. cc)
  select_backend_exact true config = elim (Result-cases (new_ebpf aya config)) [
    | inl (b, eq) ↦ inl (b, rw (eq, select_backend) refl, refl, new_ebpf-IsUsable config b eq)
    | inr (e, eq) ↦
        inr (rw (eq, select_backend) refl, λ b h u. failed (sym eq ∙ usable-new_ebpf config b u))
  ]
