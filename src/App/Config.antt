-- ===== src/App/Config.antt =====
-- lanscope/src/config.rs: the capture mode and the configuration.
use lanscope.Base.Text.{ends_with, to_ascii_lowercase, codes, Bytes}
use lanscope.Base.{
  [], ◌++◌, ◌∷◌, nat_Eq, list_Eq, ◌||◌, refl, ◌≡◌, ◌==◌, false, ℕ, true, some, none, if◌then◌else◌,
  Option, Bool,
}

pub data CaptureMode : Type 0 where
  gateway span host : CaptureMode

unfoldable pub sees_whole_lan : CaptureMode → Bool
sees_whole_lan gateway = true
sees_whole_lan span = true
sees_whole_lan host = false

unfoldable pub as_str : CaptureMode → Bytes
as_str gateway = codes "gateway"
as_str span = codes "span"
as_str host = codes "host"

-- The `match` of `from_str`, on the text in lower case; the text of the error is left out.
mode_of : Bytes → Option CaptureMode
mode_of s =
    if s == codes "gateway" || s == codes "gw"
    then some gateway
    else if s == codes "span" || s == codes "mirror"
    then some span
    else if s == codes "host" || s == codes "local"
    then some host
    else none

unfoldable pub from_str : Bytes → Option CaptureMode
unfolding mode_of
from_str s = mode_of (to_ascii_lowercase s)

pub record Config : Type 0 where
  pub mode : CaptureMode
  pub interface : Bytes
  pub db_path : Bytes
  pub flow_drain_interval : ℕ
  pub model_path : Option Bytes

-- `Path::join` with a relative path
abbrev join_path : Bytes → Bytes → Bytes
join_path [] rest = rest
join_path (b ∷ base) rest =
    if ends_with (b ∷ base) (codes "/")
    then (b ∷ base) ++ rest
    else (b ∷ base) ++ (codes "/" ++ rest)

or_home : Option Bytes → Option Bytes → Bytes
or_home (some xdg) home = xdg
or_home none (some home) = join_path home (codes ".local/share")
or_home none none = codes "."

-- `default_db_path`, where the environment has `XDG_DATA_HOME` and `HOME`
unfoldable pub default_db_path : Option Bytes → Option Bytes → Bytes
unfolding or_home
default_db_path xdg home =
    join_path (join_path (or_home xdg home) (codes "lanscope")) (codes "lanscope.db")

-- `Config::new`, where the default path is that of the environment.
unfoldable pub new_config : Bytes → CaptureMode → Bytes → Config
new_config default_db_path mode interface = record {
  mode = mode;
  interface = interface;
  db_path = default_db_path;
  flow_drain_interval = 2;
  model_path = none;
}

-- lanscope/src/cli.rs: the arguments of `run`; the address of the exporter stands as its text.
pub record RunArgs : Type 0 where
  pub mode : CaptureMode
  pub interface : Option Bytes
  pub headless : Bool
  pub metrics : Option Bytes
  pub model : Option Bytes

unwrap_or : Option Bytes → Bytes → Bytes
unwrap_or none d = d
unwrap_or (some s) d = s

unfoldable pub resolve_config : Bytes → RunArgs → Option Bytes → Config
unfolding unwrap_or new_config
resolve_config default_db_path args db =
    let cfg = new_config default_db_path args.mode (unwrap_or args.interface (codes "any")) in
    record cfg { db_path = unwrap_or db cfg.db_path; model_path = args.model }

-- A mode is read back from its text, whatever the case of its letters.
pub CaptureMode-names :
    (m : CaptureMode) (s : Bytes) → to_ascii_lowercase s ≡ as_str m → from_str s ≡ some m
unfolding from_str as_str
CaptureMode-names gateway s h = rw h refl
CaptureMode-names span s h = rw h refl
CaptureMode-names host s h = rw h refl
