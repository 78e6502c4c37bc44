-- ===== src/Tests/Catalog.antt =====
-- The catalogue on the small database.
use appforfixiyi.Common.{refl, none, some}
use appforfixiyi.Store.{in_memory}
use appforfixiyi.Store.Entities.Requests.{CatalogLevel}
use appforfixiyi.Catalog.{CreateCatalogNodeInput, UpdateCatalogNodeInput}
use appforfixiyi.Catalog.Forest.{IsForest, create_call, run, run-IsForest}
use appforfixiyi.Tests.{sample}

sample-IsForest : IsForest sample.nodes
sample-IsForest = (tt, (refl, (refl, (refl, (refl, (tt, tt))))))

abbrev plumbing : CreateCatalogNodeInput
plumbing = record {
  level = CatalogLevel.category;
  parent_id = some 1;
  name = 8;
  description = none;
  order = none;
  required_skill_ids = none;
  icon = none;
  accent_color = none;
}

run-IsForest_example : IsForest (run in_memory (create_call 100 plumbing) sample).nodes
run-IsForest_example = run-IsForest in_memory (create_call 100 plumbing) sample sample-IsForest

-- Another name for node 2.
abbrev renaming : UpdateCatalogNodeInput
renaming = record {
  name = some 8;
  description = none;
  order = none;
  active = none;
  required_skill_ids = none;
  icon = none;
  accent_color = none;
}
