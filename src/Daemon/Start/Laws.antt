-- ===== src/Daemon/Start/Laws.antt =====
-- How `root` of cmd/kucero/main.go enters the loop, and with which period.
use kucero.Base.{String, List, ◌∷◌, ◌++◌, Bool, true, ◌↔◌, ◌⊎◌, ◌≡◌, nat_eq, string_eq}

-- The labels have the key.
abbrev pub Has : List String → String → Type 0
Has labels key = (before : List String) × (after : List String) × (labels ≡ before ++ (key ∷ after))

-- One of the labels says that the node belongs to the control plane, under the old key or the new.
abbrev pub IsControlPlane : List String → Type 0
IsControlPlane labels =
    Has labels "node-role.kubernetes.io/master" ⊎ Has labels "node-role.kubernetes.io/control-plane"

-- The flag says whether the labels are those of a control plane node.
abbrev pub Tells : Bool → List String → Type 0
Tells is_control_plane labels = (is_control_plane ≡ true) ↔ IsControlPlane labels
