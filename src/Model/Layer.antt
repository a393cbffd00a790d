-- ===== src/Model/Layer.antt =====
-- `FilterLayer` and `FilterPlacement` of src/sysfs/configuration/model.rs.
use damon_rs.Common.{◌≡◌, refl, Bool, true, false, Option, none, some, String}

pub data FilterLayer : Type 0 where
  unified core operations : FilterLayer

pub data FilterPlacement : Type 0 where
  adaptive unified core operations : FilterPlacement

unfoldable pub exact_layer : FilterPlacement → Option FilterLayer
exact_layer FilterPlacement.adaptive = none
exact_layer FilterPlacement.unified = some FilterLayer.unified
exact_layer FilterPlacement.core = some FilterLayer.core
exact_layer FilterPlacement.operations = some FilterLayer.operations

unfoldable pub from_layer : FilterLayer → FilterPlacement
from_layer FilterLayer.unified = FilterPlacement.unified
from_layer FilterLayer.core = FilterPlacement.core
from_layer FilterLayer.operations = FilterPlacement.operations

unfoldable pub directory : FilterLayer → String
directory FilterLayer.unified = "filters"
directory FilterLayer.core = "core_filters"
directory FilterLayer.operations = "ops_filters"

-- The derived `==` of the layers and of the placements.
abbrev pub layer_eq : FilterLayer → FilterLayer → Bool
layer_eq FilterLayer.unified FilterLayer.unified = true
layer_eq FilterLayer.core FilterLayer.core = true
layer_eq FilterLayer.operations FilterLayer.operations = true
layer_eq _ _ = false

abbrev pub placement_eq : FilterPlacement → FilterPlacement → Bool
placement_eq FilterPlacement.adaptive FilterPlacement.adaptive = true
placement_eq FilterPlacement.unified FilterPlacement.unified = true
placement_eq FilterPlacement.core FilterPlacement.core = true
placement_eq FilterPlacement.operations FilterPlacement.operations = true
placement_eq _ _ = false

pub exact_layer-from_layer : (l : FilterLayer) → exact_layer (from_layer l) ≡ some l
unfolding exact_layer from_layer
exact_layer-from_layer FilterLayer.unified = refl
exact_layer-from_layer _ = refl
