-- ===== src/Requests/Attachments.antt =====
-- The media of a request, and the short view of requests that other parts read
-- (`createMediaUploadSession`, `finalizeMedia`, `listMedia` and `findSummaries` of
-- apps/api/src/requests/request.service.ts).
use appforfixiyi.Common.{
  ℕ, Option, List, map, find?, ◌==◌, contains, distinct, Exec, gets, ◌>>◌, Text,
}
use appforfixiyi.Store.{Mongo}
use appforfixiyi.Store.Database.{Db}
use appforfixiyi.Store.Entities.Requests.{
  RequestStatus, ServiceRequest, Media, ContentType, request,
}
use appforfixiyi.Storage.{Bucket}
use appforfixiyi.Media.{CreateUploadSessionOutput, create_upload_session, finalize, list_for_target}
use appforfixiyi.Requests.{require_owned, require_editable}

pub record RequestSummary : Type 0 where
  pub id : ℕ
  pub client_user_id : ℕ
  pub status : RequestStatus

abbrev pub to_summary : ServiceRequest → RequestSummary
to_summary d = record { id = d.id; client_user_id = d.client_user_id; status = d.status }

-- CreateTargetMediaUploadSessionInput.
pub record TargetUploadInput : Type 0 where
  pub file_name : Text
  pub content_type : ContentType
  pub size_bytes : ℕ

module _ {R : Type 0} (mongo : Mongo) where
  unfoldable pub find_summaries : List ℕ → Db R → List RequestSummary
  find_summaries ids s = map to_summary (mongo.find (λ d. contains d.id (distinct ids)) s.requests)

  unfoldable pub create_media_upload_session :
      Bucket → (fresh id client : ℕ) → TargetUploadInput → Exec (Db R) CreateUploadSessionOutput
  create_media_upload_session bucket fresh id client i = do
    require_editable mongo id client
    create_upload_session mongo bucket fresh client (record {
      target_type = request;
      target_id = id;
      file_name = i.file_name;
      content_type = i.content_type;
      size_bytes = i.size_bytes;
    })

  unfoldable pub finalize_media : Bucket → (id client media_id : ℕ) → Exec (Db R) Media
  finalize_media bucket id client media_id = do
    require_editable mongo id client
    finalize mongo bucket media_id client

  unfoldable pub list_media : (id client : ℕ) → Exec (Db R) (List Media)
  list_media id client = do require_owned mongo id client; gets (list_for_target mongo request id)

-- `Map.get` by the id of the summary.
abbrev pub summary_of : ℕ → List RequestSummary → Option RequestSummary
summary_of i rs = find? (λ r. r.id == i) rs
