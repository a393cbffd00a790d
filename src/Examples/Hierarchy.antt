-- ===== src/Examples/Hierarchy.antt =====
-- Contexts and hierarchies.
use damon_rs.Common.{◌≡◌, ◌⊎◌, ◌↔◌, List, true, false, arith, [], ◌∷◌}
use damon_rs.Error.Checks.{Passes}
use damon_rs.Model.Placement.{canonicalize_filter_placements, semantic_filters_match, split_layers}
use damon_rs.Model.Placement.Buckets.{read_back, read_from, canonicalize-read_back}
use damon_rs.Model.Placement.ReadBack.{semantic_filters_match-split, semantic_filters_match-unified}
use damon_rs.Model.Context
use damon_rs.Model.Context.{validate_weighted_probes, validate_units}
use damon_rs.Model.Context.Probes.{FitsHits, validate_weighted_probes-FitsHits}
use damon_rs.Model.Context.Valid.{IsValidContext, validate-IsValidContext}
use damon_rs.Model.Context.Runnable.{
  IsRunnableContext, validate_runnable_for_lifecycle-IsRunnableContext,
}
use damon_rs.Model.Damon
use damon_rs.Model.Damon.{equivalent_after_kernel_normalization}
use damon_rs.Model.Damon.Valid.{
  IsValidDamon, IsRunnableDamon, validate-IsValidDamon,
  validate_runnable_for_lifecycle-IsRunnableDamon,
}
use damon_rs.Model.Damon.Equivalent.{Matches, equivalent-Matches}
use damon_rs.Model.Layer.{FilterPlacement}
use damon_rs.Model.Filter.{FilterConfig}
use damon_rs.Examples.Data.{
  page, config, context, observed, filters, target_filter, young_filter, intervals, probe,
}

runnable_example :
    Passes (Damon.validate_runnable_for_lifecycle page false config)
    ↔ IsRunnableDamon page false config
runnable_example =
    validate_runnable_for_lifecycle-IsRunnableDamon page false config (omega arith) (ground arith)

valid_example : Passes (Damon.validate page config) ↔ IsValidDamon page config
valid_example = validate-IsValidDamon page config (omega arith) (ground arith)

context_runnable_example :
    Passes (Context.validate_runnable_for_lifecycle page true context)
    ↔ IsRunnableContext page true context
context_runnable_example =
    validate_runnable_for_lifecycle-IsRunnableContext page true context (omega arith) (ground arith)

context_valid_example : Passes (Context.validate page context) ↔ IsValidContext page context
context_valid_example = validate-IsValidContext page context (omega arith) (ground arith)

equivalent_example :
    (equivalent_after_kernel_normalization config observed ≡ true)
    ↔ ((config ≡ observed) ⊎ Matches config observed)
equivalent_example = equivalent-Matches config observed

split_example : semantic_filters_match filters (read_back (split_layers filters)) ≡ true
split_example = semantic_filters_match-split filters

canonical_example :
    canonicalize_filter_placements filters (target_filter ∷ young_filter ∷ [])
    ≡ read_back (split_layers filters)
canonical_example =
    canonicalize-read_back filters (target_filter ∷ young_filter ∷ []) (ground arith)

hits_example :
    Passes (validate_weighted_probes intervals (probe ∷ [])) ↔ FitsHits intervals (probe ∷ [])
hits_example = validate_weighted_probes-FitsHits intervals (probe ∷ [])

-- No filter asks for a split directory.
abbrev anywhere : List FilterConfig
anywhere = record young_filter { placement = FilterPlacement.adaptive } ∷ []

unified_example :
    semantic_filters_match anywhere (read_from FilterPlacement.unified anywhere) ≡ true
unified_example = semantic_filters_match-unified anywhere (ground arith)
