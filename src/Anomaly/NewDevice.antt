-- ===== src/Anomaly/NewDevice.antt =====
-- `NewDeviceDetector` of lanscope/src/anomaly/heuristics.rs
use lanscope.Base.Text.{codes, Bytes}
use lanscope.Base.{◌∷◌, ◌++◌, none, some, [], List, ℕ, Option}
use lanscope.Registry.{Device, Change, added, updated, label}
use lanscope.Alert.{Alert, new_alert, info}

or_unknown : Option Bytes → Bytes
or_unknown none = codes "unknown vendor"
or_unknown (some vendor) = vendor

unfoldable pub on_device : Device → Change → ℕ → List Alert
unfolding or_unknown
on_device device updated now = []
on_device device added now =
    new_alert now (some device.mac) info (codes "new_device") (
      codes "New device joined: "
      ++ (label device ++ (codes " (" ++ (or_unknown device.vendor ++ codes ")"))))
    ∷ []
