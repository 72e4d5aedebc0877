-- ===== src/Capture/Synthetic.antt =====
-- What a synthetic DHCP frame is decoded to.
use lanscope.Base.{nat_Eq, [], ◌∷◌, ℕ, List}
use lanscope.Base.Text.{Bytes}
use lanscope.Decode.Dhcp

abbrev pub dhcp_options : Bytes → Bytes → Bytes → List (ℕ × Bytes)
dhcp_options hostname prl vendor = (12, hostname) ∷ (55, prl) ∷ (60, vendor) ∷ []
