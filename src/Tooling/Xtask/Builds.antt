-- ===== src/Tooling/Xtask/Builds.antt =====
-- When the kernel object is built.
use mathlib.Core.Path.{subst}
use lanscope.Base.{◌≡◌, ◌⊎◌, inl, inr, Bool, true, List, refl, Bool-cases}
use lanscope.Base.Text.{Bytes}
use lanscope.Tooling.{Output, System}
use lanscope.Tooling.Xtask.{
  Outcome, succeeded, failed, linker_version, cargo_build, Ran, check_toolchain, build_ebpf,
  linker_checked, built, after_check,
}

module _ (sys : System) where
  open sys use {World, run}

  -- A command that was started and whose status is a success.
  abbrev pub Works : World × (Bytes ⊎ Output) → Type 0
  Works (w, inl e) = ⊥
  Works (w, inr o) = o.success ≡ true

  -- What a command leads to that everything rests on.
  Decides : World × (Bytes ⊎ Output) → Ran sys → Type 0
  Decides ran after =
      (after.system ≡ ran.0)
      × (((after.outcome ≡ succeeded) × Works ran)
          ⊎ ((e : List Bytes) × (after.outcome ≡ failed e) × (¬ Works ran)))

  linker_checked-Decides : (ran : World × (Bytes ⊎ Output)) → Decides ran (linker_checked sys ran)
  unfolding linker_checked Decides
  linker_checked-Decides (w, inl e) = (refl, inr (_, refl, λ works. works))
  linker_checked-Decides (w, inr o) = elim (Bool-cases o.success) [
    | inl works ↦ rw works (refl, inl (refl, refl))
    | inr fails ↦ rw fails (refl, inr (_, refl, λ works. cc))
  ]

  built-Decides :
      (printed : List Bytes) (release : Bool) (ran : World × (Bytes ⊎ Output))
      → Decides ran (built sys printed release ran)
  unfolding built Decides
  built-Decides printed release (w, inl e) = (refl, inr (_, refl, λ works. works))
  built-Decides printed release (w, inr o) = elim (Bool-cases o.success) [
    | inl works ↦ rw works (refl, inl (refl, refl))
    | inr fails ↦ rw fails (refl, inr (_, refl, λ works. cc))
  ]

  -- The command that looks for the linker, and the one that builds, which is run after it.
  abbrev pub linker_run : World → World × (Bytes ⊎ Output)
  linker_run w = run w linker_version

  abbrev pub cargo_run : World → Bool → World × (Bytes ⊎ Output)
  cargo_run w release = run (linker_run w).0 (cargo_build release)

  -- What the task that builds leads to, by the two commands.
  pub data Built (linker cargo : World × (Bytes ⊎ Output)) (after : Ran sys) : Type 0 where
    object_built :
        after.outcome ≡ succeeded
        → Works linker
        → Works cargo
        → after.system ≡ cargo.0
        → Built linker cargo after
    linker_not_found :
        (e : List Bytes)
        → after.outcome ≡ failed e
        → ¬ Works linker
        → after.system ≡ linker.0
        → Built linker cargo after
    cargo_failed :
        (e : List Bytes)
        → after.outcome ≡ failed e
        → Works linker
        → ¬ Works cargo
        → after.system ≡ cargo.0
        → Built linker cargo after

  Decides-Built :
      (linker cargo : World × (Bytes ⊎ Output)) (after : Ran sys)
      → Works linker
      → Decides cargo after
      → Built linker cargo after
  unfolding Decides
  Decides-Built linker cargo after found (same, inl (fine, works)) =
      object_built fine found works same
  Decides-Built linker cargo after found (same, inr (e, fails, broken)) =
      cargo_failed e fails found broken same

  after_check-Built :
      (release : Bool) (linker : World × (Bytes ⊎ Output)) (checked : Ran sys) (outcome : Outcome)
      → checked.outcome ≡ outcome
      → Decides linker checked
      → Built linker (run linker.0 (cargo_build release)) (after_check sys release checked outcome)
  unfolding after_check Decides
  after_check-Built release linker checked (failed e) is_failed (same, inl (fine, found)) = cc
  after_check-Built release linker checked (failed e) is_failed (same, inr (e', fails, missing)) =
      linker_not_found _ refl missing same
  after_check-Built release linker checked succeeded is_fine (same, inl (fine, found)) =
      Decides-Built linker _ _ found (
        subst
          (λ w.
            Decides (run w (cargo_build release))
              (built sys checked.printed release (run checked.system (cargo_build release))))
          same (built-Decides checked.printed release (run checked.system (cargo_build release))))
  after_check-Built release linker checked succeeded is_fine (same, inr (e, fails, missing)) = cc

  -- The task that builds succeeds exactly where the linker is found and `cargo` builds the object;
  -- where the linker is not found, `cargo` is not run.
  pub build_ebpf-Built :
      (w : World) (release : Bool)
      → Built (linker_run w) (cargo_run w release) (build_ebpf sys w release)
  unfolding build_ebpf check_toolchain
  build_ebpf-Built w release =
      after_check-Built release (linker_run w) (check_toolchain sys w)
        (check_toolchain sys w).outcome refl (linker_checked-Decides (linker_run w))
