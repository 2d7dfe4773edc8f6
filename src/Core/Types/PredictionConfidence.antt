-- ===== src/Core/Types/PredictionConfidence.antt =====
-- `PredictionConfidence` of crates/voip-core/src/types.rs and its conversions from and to the generated type.
use three_pillars_voip.Base.{◌≡◌, refl, Bool, true, false}
use three_pillars_voip.Core.Proto

pub data PredictionConfidence : Type 0 where
  sequential pseudo_sequential random : PredictionConfidence

pub from_proto : Proto.PredictionConfidence → PredictionConfidence
from_proto Proto.PredictionConfidence.sequential = sequential
from_proto Proto.PredictionConfidence.pseudo_sequential = pseudo_sequential
from_proto Proto.PredictionConfidence.random = random

pub to_proto : PredictionConfidence → Proto.PredictionConfidence
to_proto sequential = Proto.PredictionConfidence.sequential
to_proto pseudo_sequential = Proto.PredictionConfidence.pseudo_sequential
to_proto random = Proto.PredictionConfidence.random

unfoldable pub is_predictable : PredictionConfidence → Bool
is_predictable random = false
is_predictable _ = true

pub from_proto-to_proto : (x : PredictionConfidence) → from_proto (to_proto x) ≡ x
unfolding from_proto to_proto
from_proto-to_proto sequential = refl
from_proto-to_proto _ = refl

pub to_proto-from_proto : (p : Proto.PredictionConfidence) → to_proto (from_proto p) ≡ p
unfolding from_proto to_proto
to_proto-from_proto Proto.PredictionConfidence.sequential = refl
to_proto-from_proto _ = refl
