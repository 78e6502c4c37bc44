-- ===== src/Store/Entities/Requests.antt =====
-- apps/api/src/requests/schemas/service-request.schema.ts, catalog/schemas/catalog-node.schema.ts,
-- media/schemas/media.schema.ts, and their enumerations in packages/contracts/src.
use appforfixiyi.Common.{ℕ, Bool, Option, List, Text}

pub data RequestStatus : Type 0 where
  draft requested matching cancelled expired : RequestStatus

pub data RequestUrgency : Type 0 where
  normal urgent : RequestUrgency

-- Coordinates are only handed on to the geometry, which is a parameter.
pub record GeoPoint : Type 0 where
  pub lng : ℕ
  pub lat : ℕ

pub record Location : Type 0 where
  pub address : Option ℕ
  pub point : GeoPoint

pub record ServiceRequest : Type 0 where
  pub id : ℕ
  pub client_user_id : ℕ
  pub service_id : Option ℕ
  pub intervention_type_id : Option ℕ
  pub complexity_id : Option ℕ
  pub description : Option ℕ
  pub urgency : Option RequestUrgency
  pub location : Option Location
  pub status : RequestStatus

pub data CatalogLevel : Type 0 where
  domain category service intervention_type complexity skill : CatalogLevel

pub CatalogLevel-discrete : Discrete CatalogLevel
CatalogLevel-discrete = hlevel

pub record CatalogNode : Type 0 where
  pub id : ℕ
  pub level : CatalogLevel
  pub parent_id : Option ℕ
  pub name : ℕ
  pub description : Option ℕ
  pub order : ℕ
  pub active : Bool
  pub required_skill_ids : List ℕ
  pub icon : Option ℕ
  pub accent_color : Option ℕ

pub data MediaTargetType : Type 0 where
  request conversation : MediaTargetType

pub data MediaKind : Type 0 where
  image video audio : MediaKind

pub data MediaStatus : Type 0 where
  pending_upload ready rejected : MediaStatus

-- The keys of `MEDIA_KIND_BY_CONTENT_TYPE`, and the other strings.
pub data ContentType : Type 0 where
  image_jpeg image_png image_webp video_mp4 video_webm audio_mpeg audio_wav audio_ogg : ContentType
  other_type : ℕ → ContentType

pub record Media : Type 0 where
  pub id : ℕ
  pub owner_user_id : ℕ
  pub target_type : MediaTargetType
  pub target_id : ℕ
  pub kind : MediaKind
  pub status : MediaStatus
  pub content_type : ContentType
  pub file_name : Text
  pub object_key : ℕ
  pub declared_size_bytes : ℕ
  pub actual_size_bytes : Option ℕ
  pub width : Option ℕ
  pub height : Option ℕ
  pub rejection_reason : Option ℕ
