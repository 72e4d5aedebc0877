-- ===== src/Tooling/Build.antt =====
-- lanscope/build.rs with the feature `ebpf`.
use lanscope.Base.{
  ◌||◌, ◌⊎◌, inl, inr, Bool, true, false, Option, none, some, List, [], ◌∷◌, ◌++◌, if◌then◌else◌,
}
use lanscope.Base.Text.{ends_with, is_empty, codes, Bytes}
use lanscope.Tooling.{Command, Output, System}

abbrev pub ebpf_dir : Bytes
ebpf_dir = codes "../lanscope-ebpf"

abbrev pub bpf_target : Bytes
bpf_target = codes "bpfel-unknown-none"

abbrev pub object_name : Bytes
object_name = codes "lanscope"

-- `Path::join` with a relative path
abbrev join_path : Bytes → Bytes → Bytes
join_path dir file =
    if is_empty dir || ends_with dir (47 ∷ []) then dir ++ file else dir ++ 47 ∷ file

abbrev pub rustup_build : Command
rustup_build = record {
  program = codes "rustup";
  args =
      codes "run"
      ∷ codes "nightly"
      ∷ codes "cargo"
      ∷ codes "build"
      ∷ codes "--target"
      ∷ bpf_target
      ∷ codes "-Z"
      ∷ codes "build-std=core"
      ∷ [];
  current_dir = some ebpf_dir;
  env_removed =
      codes "RUSTUP_TOOLCHAIN"
      ∷ codes "RUSTC"
      ∷ codes "RUSTC_WORKSPACE_WRAPPER"
      ∷ codes "RUSTFLAGS"
      ∷ codes "CARGO_ENCODED_RUSTFLAGS"
      ∷ [];
}

unfoldable pub object : Bytes
object =
    join_path
      (join_path (join_path (join_path ebpf_dir (codes "target")) bpf_target) (codes "debug"))
      object_name

module _ (sys : System) where
  open sys use {World, run, copy}

  staged : World × Option Bytes → World × Option (List Bytes)
  staged (w, some e) = (w, none)
  staged (w, none) = (
    w,
    some (
        (codes "cargo:rerun-if-changed=" ++ (ebpf_dir ++ codes "/src"))
        ∷ (codes "cargo:rerun-if-changed=" ++ (ebpf_dir ++ codes "/Cargo.toml"))
        ∷ []),
  )

  after_build : Bytes → World × (Bytes ⊎ Output) → World × Option (List Bytes)
  unfolding staged
  after_build out_dir (w, inl e) = (w, none)
  after_build out_dir (w, inr o) =
      if o.success then staged (copy w object (join_path out_dir object_name)) else (w, none)

  -- `ebpf::build`, by what `OUT_DIR` is: the lines that it prints, or nothing where it panics
  unfoldable pub build : World → Option Bytes → World × Option (List Bytes)
  unfolding after_build
  build w none = (w, none)
  build w (some out_dir) = after_build out_dir (run w rustup_build)

  -- `main`, by whether the feature `ebpf` is on
  unfoldable pub main : World → Bool → Option Bytes → World × Option (List Bytes)
  unfolding build
  main w true out_dir = build w out_dir
  main w false out_dir = (w, some [])
