-- ===== src/Tooling/Main.antt =====
-- lanscope/src/main.rs, and `init_tracing`, `spawn_signal_handler` and `warn_on_visibility` of
-- lanscope/src/app.rs.
use lanscope.Base.{zero, suc, not, ℕ, Bool, true, false, Option, none, some, ◌++◌}
use lanscope.Base.Text.{codes, Bytes}
use lanscope.Error.{Result, ok, err}
use lanscope.App.Config.{CaptureMode, sees_whole_lan}

default_level : ℕ → Bytes
default_level zero = codes "info"
default_level (suc zero) = codes "debug"
default_level (suc (suc more)) = codes "trace"

-- `init_tracing`: the filter, by `EnvFilter::try_from_default_env()`
unfoldable pub filter {ℓ} : {Filter : Type ℓ} → (Bytes → Filter) → Option Filter → ℕ → Filter
unfolding default_level
filter new_filter none verbose =
    new_filter (codes "lanscope=" ++ (default_level verbose ++ codes ",warn"))
filter new_filter (some f) verbose = f

-- `spawn_signal_handler`: whether the shutdown flag is sent, by what `ctrl_c` yields
unfoldable pub sends_shutdown : Option Bytes → Bool
sends_shutdown none = true
sends_shutdown (some e) = false

-- `warn_on_visibility`: whether the notice is logged
unfoldable pub warns_on_visibility : CaptureMode → Bool
unfolding sees_whole_lan
warns_on_visibility mode = not (sees_whole_lan mode)

-- The exit status of `main`, by the result of `dispatch`.
unfoldable pub exit_status : Result {0} Unit → ℕ
exit_status (ok _) = 0
exit_status (err e) = 1
