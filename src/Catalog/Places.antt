-- ===== src/Catalog/Places.antt =====
-- No two nodes of the catalogue have the same id or the same level, parent and name: the indexes of
-- apps/api/src/catalog/schemas/catalog-node.schema.ts under the calls of catalog.service.ts.
use appforfixiyi.Common.{◌≡◌, false, Option, List, [], ◌∷◌, Exec, All}
use appforfixiyi.Store.{Mongo}
use appforfixiyi.Store.Database.{Db}
use appforfixiyi.Store.Entities.Requests.{CatalogNode}
use appforfixiyi.Catalog.{clashes}

-- No two nodes clash.
abbrev pub IsApart : List CatalogNode → Type 0
IsApart [] = Unit
IsApart (n ∷ ns) = All (λ x. clashes n x ≡ false) ns × IsApart ns

module _ {R : Type 0} (mongo : Mongo) where
  abbrev StaysApart : {A : Type 0} → Exec (Db R) A → Type 0
  StaysApart m = (s : Db R) → IsApart s.nodes → IsApart (m s).1.nodes
