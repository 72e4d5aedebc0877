-- ===== src/Tooling/Xtask.antt =====
-- xtask/src/main.rs.
pub mod Builds
use lanscope.Base.{
  ◌⊎◌, inl, inr, Bool, true, false, Option, none, some, List, [], ◌∷◌, ◌++◌, ◌==◌, nat_Eq, list_Eq,
  if◌then◌else◌, contains, get_elem?,
}
use lanscope.Base.Text.{codes, Bytes}
use lanscope.Base.Utf8.{trim, from_utf8_lossy}
use lanscope.Tooling.{Command, Output, System}

abbrev pub ebpf_dir : Bytes
ebpf_dir = codes "lanscope-ebpf"

abbrev pub bpf_target : Bytes
bpf_target = codes "bpfel-unknown-none"

-- `anyhow::Result<()>`: nothing, or the texts of the error, the outermost context first
pub data Outcome : Type 0 where
  succeeded : Outcome
  failed : List Bytes → Outcome

abbrev linker_version : Command
linker_version = record {
  program = codes "bpf-linker";
  args = codes "--version" ∷ [];
  current_dir = none;
  env_removed = [];
}

abbrev pub linker_missing : Bytes
linker_missing =
    codes "bpf-linker not found. Install it with:\n  cargo install bpf-linker\n"
    ++ codes "(requires LLVM; on Debian/Ubuntu: apt install llvm clang)"

-- `args().any(|a| a == "--release")`
unfoldable pub release_flag : List Bytes → Bool
release_flag args = contains args (codes "--release")

-- The `cargo` command of `build_ebpf`.
unfoldable pub cargo_build : Bool → Command
cargo_build release = record {
  program = codes "cargo";
  args =
      (codes "+nightly"
        ∷ codes "build"
        ∷ codes "--target"
        ∷ bpf_target
        ∷ codes "-Z"
        ∷ codes "build-std=core"
        ∷ [])
      ++ (if release then codes "--release" ∷ [] else []);
  current_dir = some ebpf_dir;
  env_removed = [];
}

module _ (sys : System) where
  open sys use {World, run}

  -- The system in the end, the lines that were printed, and the result.
  pub record Ran : Type 0 where
    pub system : World
    pub printed : List Bytes
    pub outcome : Outcome

  linker_checked : World × (Bytes ⊎ Output) → Ran
  linker_checked (w, inl e) = record {
    system = w;
    printed = [];
    outcome = failed (linker_missing ∷ []);
  }
  linker_checked (w, inr o) =
      if o.success
      then record {
        system = w;
        printed =
            (codes "bpf-linker: " ++ trim (from_utf8_lossy o.stdout)) ∷ codes "toolchain OK" ∷ [];
        outcome = succeeded;
      }
      else record { system = w; printed = []; outcome = failed (linker_missing ∷ []) }

  unfoldable pub check_toolchain : World → Ran
  unfolding linker_checked
  check_toolchain w = linker_checked (run w linker_version)

  built : List Bytes → Bool → World × (Bytes ⊎ Output) → Ran
  built printed release (w, inl e) = record {
    system = w;
    printed = printed;
    outcome = failed (codes "failed to invoke cargo for eBPF build" ∷ e ∷ []);
  }
  built printed release (w, inr o) =
      if o.success
      then record {
        system = w;
        printed =
            printed
            ++ (codes "eBPF object built ("
                ++ ((if release then codes "release" else codes "debug") ++ codes ")"))
              ∷ [];
        outcome = succeeded;
      }
      else record {
        system = w;
        printed = printed;
        outcome = failed (codes "eBPF build failed" ∷ []);
      }

  -- `.context(…)?` and the rest
  after_check : Bool → Ran → Outcome → Ran
  unfolding cargo_build built
  after_check release checked (failed e) = record checked {
    outcome = failed (codes "eBPF toolchain check failed" ∷ e);
  }
  after_check release checked succeeded =
      built checked.printed release (run checked.system (cargo_build release))

  unfoldable pub build_ebpf : World → Bool → Ran
  unfolding check_toolchain after_check
  build_ebpf w release = after_check release (check_toolchain w) (check_toolchain w).outcome

  -- The `match` of `main`, which prints the usage on another stream.
  unfoldable pub run_task : World → List Bytes → Option Bytes → Ran
  unfolding build_ebpf release_flag
  run_task w args none = record { system = w; printed = []; outcome = succeeded }
  run_task w args (some task) =
      if task == codes "build-ebpf"
      then build_ebpf w (release_flag args)
      else if task == codes "check"
      then check_toolchain w
      else record { system = w; printed = []; outcome = succeeded }

  -- `main`, on the arguments with the program first
  unfoldable pub main : World → List Bytes → Ran
  unfolding run_task
  main w args = run_task w args (get_elem? args 1)
