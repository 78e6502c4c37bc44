-- ===== src/Tests.antt =====
-- A small database, on which the theorems about the services are run.
mod Requests
mod Catalog
mod Matching
mod Auth
mod Verification
mod Chat
mod Accounts
use appforfixiyi.Common.{ℕ, Bool, true, false, Option, none, some, List, [], ◌∷◌}
use appforfixiyi.Store.Database.{Db}
use appforfixiyi.Store.Entities.Requests.{
  RequestStatus, draft, requested, matching, cancelled, urgent, normal, GeoPoint, Location,
  ServiceRequest, CatalogLevel, CatalogNode,
}
use appforfixiyi.Store.Entities.Matching.{
  Match, auto, MatchStatus, MatchCandidate, notified, ScoreBreakdown, MatchingConfig,
  ProviderProfile, available, expert, ServiceArea,
}
use appforfixiyi.Store.Entities.Auth.{UserSession, active}

abbrev node : (id : ℕ) → CatalogLevel → Option ℕ → List ℕ → CatalogNode
node id level parent skills = record {
  id = id;
  level = level;
  parent_id = parent;
  name = id;
  description = none;
  order = 0;
  active = true;
  required_skill_ids = skills;
  icon = none;
  accent_color = none;
}

abbrev here : Location
here = record { address = none; point = record { lng = 3; lat = 36 } }

abbrev full_request : (id client : ℕ) → RequestStatus → ServiceRequest
full_request id client status = record {
  id = id;
  client_user_id = client;
  service_id = some 3;
  intervention_type_id = some 4;
  complexity_id = some 5;
  description = some 9;
  urgency = some urgent;
  location = some here;
  status = status;
}

abbrev profile : (id user : ℕ) → ProviderProfile
profile id user = record {
  id = id;
  user_id = user;
  type = expert;
  availability_status = available;
  display_name = id;
  bio = none;
  languages = [];
  experience_years = some 4;
  skill_ids = 6 ∷ [];
  service_ids = 3 ∷ [];
  availability = [];
  service_areas = record { center = record { lng = 3; lat = 36 }; radius_km = 10 } ∷ [];
}

abbrev running_match : Match
running_match = record {
  id = 30;
  request_id = 11;
  client_user_id = 7;
  mode = auto;
  status = MatchStatus.active;
  current_radius_km = 5;
  batch_count = 0;
  next_batch_at = none;
}

abbrev closed_match : Match
closed_match = record running_match { id = 31; request_id = 13; status = MatchStatus.exhausted }

abbrev orphan_match : Match
orphan_match = record running_match { id = 32; request_id = 14 }

abbrev weights : ScoreBreakdown ℕ
weights = record {
  distance = 500;
  availability = 200;
  verification_level = 100;
  experience = 100;
  exploration = 100;
  reputation = 0;
  reliability = 0;
  history = 0;
  current_load = 0;
}

abbrev contacted : MatchCandidate ℕ
contacted = record {
  id = 40;
  match_id = 30;
  provider_id = 22;
  provider_user_id = 23;
  request_id = 11;
  batch_index = 0;
  status = notified;
  score = 700;
  score_breakdown = weights;
  distance_km = some 3;
  decline_reason = none;
  dispatched_at = 50;
  expires_at = 100;
}

abbrev session : UserSession
session = record {
  id = 50;
  user_id = 7;
  device_id = 60;
  token_version = 4;
  status = active;
  revoked_reason = none;
  revoked_at = none;
  ip = none;
  user_agent = none;
  last_used_at = 10;
  expires_at = 1000;
}

abbrev config : MatchingConfig ℕ
config = record {
  weights = weights;
  default_radius_km = 5;
  max_radius_km = 20;
  radius_expansion_step_km = 5;
  batch_size = 3;
  batch_wait_seconds = 60;
  urgent_batch_size = 2;
  urgent_batch_wait_seconds = 30;
  exploration_slots_per_batch = 1;
  require_verified_provider = false;
  max_batches_per_match = 5;
  candidate_expiry_seconds = 120;
}

abbrev sample : Db ℕ
sample = record {
  requests =
      full_request 10 7 requested
      ∷ full_request 11 7 matching
      ∷ full_request 12 8 draft
      ∷ full_request 14 8 cancelled
      ∷ [];
  nodes =
      node 1 CatalogLevel.domain none []
      ∷ node 2 CatalogLevel.category (some 1) []
      ∷ node 3 CatalogLevel.service (some 2) []
      ∷ node 4 CatalogLevel.intervention_type (some 3) []
      ∷ node 5 CatalogLevel.complexity (some 4) (6 ∷ [])
      ∷ node 6 CatalogLevel.skill none []
      ∷ [];
  media = [];
  profiles = profile 20 21 ∷ profile 22 23 ∷ profile 24 25 ∷ [];
  cases = [];
  matches = running_match ∷ closed_match ∷ orphan_match ∷ [];
  candidates = contacted ∷ [];
  batches = [];
  jobs = [];
  users = [];
  sessions = session ∷ [];
  devices = [];
  companies = [];
  members = [];
  documents = [];
  decisions = [];
  conversations = [];
  messages = [];
  events = [];
  config = config;
}
