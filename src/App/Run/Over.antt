-- ===== src/App/Run/Over.antt =====
-- How `run` ends.
use mathlib.Core.Path.{subst}
use lanscope.Capture.Ebpf.{Sender}
use lanscope.Capture.Ebpf.Loop.{Ring, Wake, run_ebpf}
use lanscope.Capture.Ebpf.Loop.Told.{has_returned, run_ebpf-told}
use lanscope.Capture.Portable.{run_portable}
use lanscope.Capture.Portable.Prefix.{run_portable-told}
use lanscope.Base.{
  ◌∷◌, ◌++◌, sym, Bool, ◌≡◌, inl, inr, true, false, Option, none, some, List, [], refl,
  Option-cases,
}
use lanscope.Base.Text.{Bytes}
use lanscope.Base.Float.{Floats}
use lanscope.Error.{Error, Result-cases, Result, ok, err, storage}
use lanscope.Storage.{Store}
use lanscope.Anomaly.Onnx.{Inference}
use lanscope.App.{Pipeline, seed_registry}
use lanscope.App.Config.{RunArgs, resolve_config}
use lanscope.App.Loop.{Input, shutdown_changed}
use lanscope.App.Loop.Flushed.{HasStopped, capture_loop-HasStopped}
use lanscope.App.Run.{
  ended, installed, seeded_or, Host, Ending, not_started, abandoned, finished, held_up, joined,
  start_up, run,
}

-- The tasks of the two backends, with what each meets until the interface returns.
pub data Task : Type 1 where
  portable_task : Sender → Bool → List (Option Bool) → Task
  ebpf_task : Ring → Sender → List Wake → Task

-- Whether the task returns after the shutdown flag is set as well.
unfoldable pub returns_when_told : Task → Bool
returns_when_told (portable_task tx flag changes) =
    (run_portable tx flag (changes ++ some true ∷ [])).1
returns_when_told (ebpf_task ring tx wakes) =
    has_returned (run_ebpf ring tx (wakes ++ Wake.shutdown_changed (some true) ∷ [])).returned

-- Whatever it met, the task returns once it is told to.
Task-returns : (task : Task) → returns_when_told task ≡ true
unfolding returns_when_told
Task-returns (portable_task tx flag changes) = run_portable-told tx flag changes
Task-returns (ebpf_task ring tx wakes) = run_ebpf-told ring tx wakes

err-injective : {A : Type 0} {a b : Error} → Path (Result A) (err a) (err b) → a ≡ b
err-injective h = cc

not_failed : {A : Type 0} {a : A} {e : Error} → Path (Result A) (ok a) (err e) → ⊥
not_failed h = cc

module _ (fl : Floats) (inf : Inference fl) (st : Store) where
  -- What keeps `run` from starting: the store cannot be opened, the devices cannot be loaded, or the
  -- exporter that is asked for cannot be installed.
  pub data IsStartError (host : Host fl inf st) (args : RunArgs) (db : Option Bytes) (e : Error)
      : Type 0 where
    by_open :
        host.open_store (resolve_config host.default_db_path args db).db_path ≡ err e
        → IsStartError host args db e
    by_load :
        (s : st.State)
        → host.open_store (resolve_config host.default_db_path args db).db_path ≡ ok s
        → st.load_devices s ≡ none
        → storage host.load_error ≡ e
        → IsStartError host args db e
    by_install :
        (addr text : Bytes)
        → args.metrics ≡ some addr
        → host.install addr ≡ some text
        → IsStartError host args db e

  installed_fails :
      (host : Host fl inf st) (args : RunArgs) (db : Option Bytes) (e e' : Error)
      → installed fl inf st host args.metrics ≡ err e'
      → IsStartError host args db e
  unfolding installed
  installed_fails host args db e e' eq = elim (Option-cases args.metrics) [
    | inl unasked ↦ absurd (not_failed (rw unasked at eq))
    | inr (addr, asked) ↦ elim (Option-cases (host.install addr)) [
      | inl fine ↦ absurd (not_failed (rw (asked, installed, fine) at eq))
      | inr (text, failed) ↦ by_install addr text asked failed
    ]
  ]

  start_up-IsStartError :
      (host : Host fl inf st) (args : RunArgs) (db : Option Bytes) (e : Error)
      → start_up fl inf st host args db ≡ err e
      → IsStartError host args db e
  unfolding start_up seed_registry seeded_or
  start_up-IsStartError host args db e eq =
      elim (Result-cases (host.open_store (resolve_config host.default_db_path args db).db_path)) [
        | inr (e', failed) ↦ by_open (
            subst
              (λ x. host.open_store (resolve_config host.default_db_path args db).db_path ≡ err x)
              (err-injective (rw failed at eq)) failed)
        | inl (s, opened) ↦ elim (Option-cases (st.load_devices s)) [
          | inl unread ↦ by_load s opened unread (err-injective (rw (opened, unread) at eq))
          | inr (devices, read) ↦ elim (Result-cases (installed fl inf st host args.metrics)) [
            | inr (e', failed) ↦ installed_fails host args db e e' failed
            | inl (done, ready) ↦ absurd (not_failed (rw (opened, read, ready) at eq))
          ]
        ]
      ]

  -- With the interface, `run` ends once that has returned: before the loop starts, for a reason that
  -- keeps it from starting, or with the error of the interface, or with success after the loop.
  abbrev pub IsOver :
      Host fl inf st → RunArgs → Option Bytes → Ending fl inf st → Result {0} Unit → Type 0
  IsOver host args db (not_started e) ui = IsStartError host args db e
  IsOver host args db (abandoned e) ui = ui ≡ err e
  IsOver host args db (finished o) ui = (ui ≡ ok tt) × HasStopped fl inf st o
  IsOver host args db (held_up o) ui = ⊥

  ended-IsOver :
      (host : Host fl inf st) (args : RunArgs) (db : Option Bytes) (inputs : List Input)
      (p : Result (Pipeline fl inf st)) (ui : Result {0} Unit)
      → start_up fl inf st host args db ≡ p
      → args.headless ≡ false
      → IsOver host args db (ended fl inf st args inputs ui true p) ui
  unfolding ended joined
  ended-IsOver host args db inputs (err e) ui eq h = start_up-IsStartError host args db e eq
  ended-IsOver host args db inputs (ok p) (err e) eq h = rw h refl
  ended-IsOver host args db inputs (ok p) (ok x) eq h = rw h (
    refl,
    (capture_loop-HasStopped fl inf st p 0 inputs (shutdown_changed (some true)) []
        (inr (inr refl))).0,
  )

  -- With the interface, `run` ends once that has returned, whatever the loop and the task of the
  -- backend, which is one of the two of the program, met before: with the error of the interface, and
  -- then it waits for neither, or with success, and then both have returned. It fails to start only if
  -- the store cannot be opened or read or the exporter that is asked for cannot be installed.
  pub run-IsOver :
      (host : Host fl inf st) (args : RunArgs) (db : Option Bytes) (inputs : List Input)
      (ui : Result {0} Unit) (task : Task)
      → args.headless ≡ false
      → IsOver host args db (run fl inf st host args db inputs ui (returns_when_told task)) ui
  unfolding run
  run-IsOver host args db inputs ui task h =
      subst (λ b. IsOver host args db (run fl inf st host args db inputs ui b) ui)
        (sym (Task-returns task))
        (ended-IsOver host args db inputs (start_up fl inf st host args db) ui refl h)
