-- ===== src/Tooling.antt =====
-- The build tooling and the entry point: xtask/src/main.rs (Xtask), lanscope/build.rs (Build) and
-- lanscope/src/main.rs (Main). What a command does is a parameter.
pub mod Xtask
pub mod Build
pub mod Main
use lanscope.Base.{◌⊎◌, Bool, Option, List}
use lanscope.Base.Text.{Bytes}

-- `std::process::Command`: the program, its arguments, where it runs, and the variables that it does
-- not inherit
pub record Command : Type 0 where
  pub program : Bytes
  pub args : List Bytes
  pub current_dir : Option Bytes
  pub env_removed : List Bytes

-- Whether the status is a success, and what was written.
pub record Output : Type 0 where
  pub success : Bool
  pub stdout : Bytes

-- The system: running a command changes it and yields the error of starting it or its output; a file
-- is copied or not.
pub record System : Type 1 where
  pub World : Type 0
  pub run : World → Command → World × (Bytes ⊎ Output)
  pub copy : World → Bytes → Bytes → World × Option Bytes
