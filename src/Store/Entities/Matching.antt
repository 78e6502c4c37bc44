-- ===== src/Store/Entities/Matching.antt =====
-- apps/api/src/matching/schemas/*.schema.ts, providers/schemas/provider-profile.schema.ts,
-- verification/schemas/verification-case.schema.ts, and the configuration of
-- packages/contracts/src/configuration.ts. Radii and distances are whole numbers of a fixed unit.
use appforfixiyi.Common.{ℕ, Bool, Option, List}
use appforfixiyi.Store.Entities.Requests.{GeoPoint}

pub data MatchMode : Type 0 where
  auto direct : MatchMode

pub data MatchStatus : Type 0 where
  active exhausted cancelled : MatchStatus

pub data MatchCandidateStatus : Type 0 where
  notified viewed declined expired : MatchCandidateStatus

pub record Match : Type 0 where
  pub id : ℕ
  pub request_id : ℕ
  pub client_user_id : ℕ
  pub mode : MatchMode
  pub status : MatchStatus
  pub current_radius_km : ℕ
  pub batch_count : ℕ
  pub next_batch_at : Option ℕ

-- The score and its breakdown are of the type `R` of the machine's numbers.
pub record ScoreBreakdown (R : Type 0) : Type 0 where
  pub distance : R
  pub availability : R
  pub verification_level : R
  pub experience : R
  pub exploration : R
  pub reputation : R
  pub reliability : R
  pub history : R
  pub current_load : R

pub record MatchCandidate (R : Type 0) : Type 0 where
  pub id : ℕ
  pub match_id : ℕ
  pub provider_id : ℕ
  pub provider_user_id : ℕ
  pub request_id : ℕ
  pub batch_index : ℕ
  pub status : MatchCandidateStatus
  pub score : R
  pub score_breakdown : ScoreBreakdown R
  pub distance_km : Option ℕ
  pub decline_reason : Option ℕ
  pub dispatched_at : ℕ
  pub expires_at : ℕ

pub record DispatchBatch : Type 0 where
  pub id : ℕ
  pub match_id : ℕ
  pub index : ℕ
  pub radius_km : ℕ
  pub candidate_ids : List ℕ
  pub dispatched_at : ℕ

-- A delayed job of the queue (matching.queue.ts): its id is made of the match and the batch.
pub record Job : Type 0 where
  pub match_id : ℕ
  pub batch_index : ℕ
  pub delay_ms : ℕ

pub record AvailabilitySlot : Type 0 where
  pub day_of_week : ℕ
  pub start_minute : ℕ
  pub end_minute : ℕ

pub record ServiceArea : Type 0 where
  pub center : GeoPoint
  pub radius_km : ℕ

pub data AvailabilityStatus : Type 0 where
  offline available busy on_the_way arrived in_service paused : AvailabilityStatus

pub data ProviderType : Type 0 where
  bricoleur technicien expert : ProviderType

pub record ProviderProfile : Type 0 where
  pub id : ℕ
  pub user_id : ℕ
  pub type : ProviderType
  pub availability_status : AvailabilityStatus
  pub display_name : ℕ
  pub bio : Option ℕ
  pub languages : List ℕ
  pub experience_years : Option ℕ
  pub skill_ids : List ℕ
  pub service_ids : List ℕ
  pub availability : List AvailabilitySlot
  pub service_areas : List ServiceArea

pub record MatchingConfig (R : Type 0) : Type 0 where
  pub weights : ScoreBreakdown R
  pub default_radius_km : ℕ
  pub max_radius_km : ℕ
  pub radius_expansion_step_km : ℕ
  pub batch_size : ℕ
  pub batch_wait_seconds : ℕ
  pub urgent_batch_size : ℕ
  pub urgent_batch_wait_seconds : ℕ
  pub exploration_slots_per_batch : ℕ
  pub require_verified_provider : Bool
  pub max_batches_per_match : ℕ
  pub candidate_expiry_seconds : ℕ

pub data VerificationTargetType : Type 0 where
  provider company : VerificationTargetType

pub data VerificationStatus : Type 0 where
  draft in_review needs_correction verified rejected suspended expired : VerificationStatus

pub record VerificationCase : Type 0 where
  pub id : ℕ
  pub target_type : VerificationTargetType
  pub target_id : ℕ
  pub status : VerificationStatus
