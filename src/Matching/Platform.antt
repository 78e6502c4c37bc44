-- ===== src/Matching/Platform.antt =====
-- What the matching engine is run on: the database driver, the machine's numbers, the geometry and
-- the job queue (BullMQ, not part of the repository), which ignores a job whose id it already holds.
use appforfixiyi.Common.{◌≡◌, Bool, true, List, [], ◌∷◌, ◌++◌, any, ◌==◌, ◌&&◌, if◌then◌else◌, refl}
use appforfixiyi.Store.{Mongo, in_memory}
use appforfixiyi.Store.Entities.Matching.{Job}
use appforfixiyi.Providers.{Geo}
use appforfixiyi.Matching.Numbers.{Numbers, thousandths}

-- `advanceBatchJobId` of matching.queue.ts joins the match and the batch.
abbrev pub same_job : Job → Job → Bool
same_job a b = a.match_id == b.match_id && a.batch_index == b.batch_index

pub record Platform : Type 1 where
  pub mongo : Mongo
  pub numbers : Numbers
  pub geo : Geo
  pub enqueue : Job → List Job → List Job
  pub enqueue_lem :
      (j : Job) (jobs : List Job)
      → enqueue j jobs ≡ (if any (same_job j) jobs then jobs else jobs ++ j ∷ [])

abbrev pub flat_world : Geo
flat_world = record { distance = λ a b. 3; within = λ c r p. true }

-- A platform that meets the laws.
abbrev pub test_platform : Platform
test_platform = record {
  mongo = in_memory;
  numbers = thousandths;
  geo = flat_world;
  enqueue = λ j jobs. if any (same_job j) jobs then jobs else jobs ++ j ∷ [];
  enqueue_lem = λ j jobs. refl;
}
