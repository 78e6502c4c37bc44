-- ===== src/Media.antt =====
-- apps/api/src/media/media.service.ts, media-signature.ts and media-metadata.ts: uploads attached to
-- a request or a conversation, from the signed URL to the scan. `now` is the instant of the call.
use appforfixiyi.Common.{
  ℕ, ◌+◌, ◌*◌, Bool, true, false, not, ◌&&◌, ◌||◌, Option, none, some, List, [], ◌∷◌, length, map,
  ◌==◌, ltb, leb, if◌then◌else◌, Exec, pure, gets, require_some, guard, modify, ◌>>=◌, ◌>>◌,
  not_found, forbidden, domain, bad_request, get_or, contains, distinct, Text, codes, starts_with,
  drop, media_content_type_not_allowed, media_size_limit_exceeded, media_already_finalized,
  media_not_uploaded, media_not_attachable,
}
use appforfixiyi.Store.{Mongo}
use appforfixiyi.Store.Database.{Db, store_created}
use appforfixiyi.Store.Entities.Requests.{
  Media, MediaTargetType, request, conversation, MediaKind, image, video, audio, MediaStatus,
  pending_upload, ready, rejected, ContentType, image_jpeg, image_png, image_webp, video_mp4,
  video_webm, audio_mpeg, audio_wav, audio_ogg, other_type,
}
use appforfixiyi.Storage.{
  Bucket, PresignedUpload, create_presigned_upload_url, create_presigned_download_url, head_object,
  read_object_prefix, sanitize_file_name,
}

abbrev pub same_target : MediaTargetType → MediaTargetType → Bool
same_target request request = true
same_target conversation conversation = true
same_target _ _ = false

abbrev pub is_ready : MediaStatus → Bool
is_ready ready = true
is_ready _ = false

abbrev pub is_pending : MediaStatus → Bool
is_pending pending_upload = true
is_pending _ = false

abbrev pub is_image : MediaKind → Bool
is_image image = true
is_image _ = false

-- MEDIA_KIND_BY_CONTENT_TYPE and MEDIA_MAX_SIZE_BYTES.
unfoldable pub media_kind_by_content_type : ContentType → Option MediaKind
media_kind_by_content_type image_jpeg = some image
media_kind_by_content_type image_png = some image
media_kind_by_content_type image_webp = some image
media_kind_by_content_type video_mp4 = some video
media_kind_by_content_type video_webm = some video
media_kind_by_content_type audio_mpeg = some audio
media_kind_by_content_type audio_wav = some audio
media_kind_by_content_type audio_ogg = some audio
media_kind_by_content_type (other_type _) = none

unfoldable pub media_max_size_bytes : MediaKind → ℕ
media_max_size_bytes image = 10 * 1024 * 1024
media_max_size_bytes video = 200 * 1024 * 1024
media_max_size_bytes audio = 50 * 1024 * 1024

-- `bytes[offset + index] === byte` for every byte expected.
abbrev pub slice_matches : List ℕ → (offset : ℕ) → List ℕ → Bool
slice_matches bytes offset expected = starts_with (drop offset bytes) expected

-- An MPEG frame: eleven bits set. Bytes are below 256.
abbrev pub is_mpeg_frame : List ℕ → Bool
is_mpeg_frame (a ∷ b ∷ _) = a == 0xff && leb 0xe0 b
is_mpeg_frame _ = false

unfoldable pub matches_signature : List ℕ → ContentType → Bool
matches_signature bytes image_jpeg = starts_with bytes (0xff ∷ 0xd8 ∷ 0xff ∷ [])
matches_signature bytes image_png = starts_with bytes (0x89 ∷ 0x50 ∷ 0x4e ∷ 0x47 ∷ [])
matches_signature bytes image_webp =
    starts_with bytes (codes "RIFF") && slice_matches bytes 8 (codes "WEBP")
matches_signature bytes video_mp4 = slice_matches bytes 4 (codes "ftyp")
matches_signature bytes video_webm = starts_with bytes (0x1a ∷ 0x45 ∷ 0xdf ∷ 0xa3 ∷ [])
matches_signature bytes audio_mpeg = starts_with bytes (codes "ID3") || is_mpeg_frame bytes
matches_signature bytes audio_wav =
    starts_with bytes (codes "RIFF") && slice_matches bytes 8 (codes "WAVE")
matches_signature bytes audio_ogg = starts_with bytes (codes "OggS")
matches_signature bytes (other_type _) = false

abbrev pub signature_prefix_bytes : ℕ
signature_prefix_bytes = 16

abbrev pub image_metadata_prefix_bytes : ℕ
image_metadata_prefix_bytes = 256 * 1024

-- Two positive sizes.
abbrev pub positive_sizes : Option (ℕ × ℕ) → Option (ℕ × ℕ)
positive_sizes none = none
positive_sizes (some (width, height)) =
    if ltb 0 width && ltb 0 height then some (width, height) else none

unfoldable pub extract_image_dimensions : Bucket → List ℕ → Option (ℕ × ℕ)
extract_image_dimensions bucket bytes = positive_sizes (bucket.image_size bytes)

abbrev pub with_dimensions : Option (ℕ × ℕ) → Media → Media
with_dimensions none m = record m { width = none; height = none }
with_dimensions (some (w, h)) m = record m { width = some w; height = some h }

abbrev pub by_id : ℕ → Media → Bool
by_id i m = m.id == i

abbrev pub same_id : Media → Media → Bool
same_id a b = a.id == b.id

abbrev pub is_for : MediaTargetType → ℕ → Media → Bool
is_for type id m = same_target m.target_type type && m.target_id == id

abbrev pub is_ready_for : MediaTargetType → ℕ → Media → Bool
is_ready_for type id m = same_target m.target_type type && m.target_id == id && is_ready m.status

abbrev pub is_attachable : List ℕ → (owner : ℕ) → MediaTargetType → (target : ℕ) → Media → Bool
is_attachable ids owner type target m =
    contains m.id (distinct ids) && m.owner_user_id == owner && is_ready_for type target m

-- The reasons of a rejection, as texts.
abbrev pub too_large : ℕ
too_large = 1

abbrev pub wrong_content : ℕ
wrong_content = 2

pub record CreateUploadSessionInput : Type 0 where
  pub target_type : MediaTargetType
  pub target_id : ℕ
  pub file_name : Text
  pub content_type : ContentType
  pub size_bytes : ℕ

pub record CreateUploadSessionOutput : Type 0 where
  pub media_id : ℕ
  pub upload : PresignedUpload
  pub object_key : ℕ

pub record MediaDisplay : Type 0 where
  pub doc : Media
  pub size_bytes : ℕ
  pub url : ℕ
  pub url_expires_at : ℕ

abbrev pub new_media : (fresh owner key : ℕ) → MediaKind → CreateUploadSessionInput → Media
new_media fresh owner key kind i = record {
  id = fresh;
  owner_user_id = owner;
  target_type = i.target_type;
  target_id = i.target_id;
  kind = kind;
  status = pending_upload;
  content_type = i.content_type;
  file_name = i.file_name;
  object_key = key;
  declared_size_bytes = i.size_bytes;
  actual_size_bytes = none;
  width = none;
  height = none;
  rejection_reason = none;
}

-- The content type as the presigner reads it.
abbrev pub type_code : ContentType → ℕ
type_code image_jpeg = 0
type_code image_png = 1
type_code image_webp = 2
type_code video_mp4 = 3
type_code video_webm = 4
type_code audio_mpeg = 5
type_code audio_wav = 6
type_code audio_ogg = 7
type_code (other_type n) = n + 8

abbrev pub object_key_of : Bucket → (fresh : ℕ) → CreateUploadSessionInput → ℕ
object_key_of bucket fresh i = bucket.object_key i.target_id fresh (sanitize_file_name i.file_name)

abbrev pub processed : Bucket → Media → (size : ℕ) → Media → Media
processed bucket m size d =
    let measured =
      if is_image m.kind
      then with_dimensions
          (extract_image_dimensions bucket
            (read_object_prefix bucket m.object_key image_metadata_prefix_bytes))
          d
      else d in
    record measured { actual_size_bytes = some size; status = ready }

module _ {R : Type 0} (mongo : Mongo) where
  unfoldable pub list_ready_ids_for_target : MediaTargetType → ℕ → Db R → List ℕ
  list_ready_ids_for_target type id s = map (λ m. m.id) (mongo.find (is_ready_for type id) s.media)

  -- In the order of creation.
  unfoldable pub list_for_target : MediaTargetType → ℕ → Db R → List Media
  list_for_target type id s = mongo.find (is_for type id) s.media

  unfoldable pub require_owned : (id owner : ℕ) → Exec (Db R) Media
  require_owned id owner = do
    found ← gets (λ s. mongo.find_one (by_id id) s.media)
    m ← require_some found not_found
    guard (m.owner_user_id == owner) forbidden
    pure m

  unfoldable pub save : ℕ → (Media → Media) → Exec (Db R) (Unit {0})
  save id f = modify (λ s. record s { media = mongo.update_one (by_id id) f s.media })

  unfoldable pub require_attachable :
      List ℕ → (owner : ℕ) → MediaTargetType → (target : ℕ) → Exec (Db R) (Unit {0})
  require_attachable [] owner type target = pure tt
  require_attachable (i ∷ is) owner type target = do
    count ← gets (λ s. length (mongo.find (is_attachable (i ∷ is) owner type target) s.media))
    guard (count == length (distinct (i ∷ is))) (domain bad_request media_not_attachable)

  module _ (bucket : Bucket) where
    unfoldable pub create_upload_session :
        (fresh owner : ℕ) → CreateUploadSessionInput → Exec (Db R) CreateUploadSessionOutput
    create_upload_session fresh owner i = do
      kind ←
          require_some (media_kind_by_content_type i.content_type)
            (domain bad_request media_content_type_not_allowed)
      guard (leb i.size_bytes (media_max_size_bytes kind))
          (domain bad_request media_size_limit_exceeded)
      made ← gets (λ s.
          mongo.create same_id (new_media fresh owner (object_key_of bucket fresh i) kind i)
            s.media)
      store_created made (λ c s. record s { media = c })
      pure (record {
        media_id = fresh;
        upload =
            create_presigned_upload_url bucket (object_key_of bucket fresh i)
              (type_code i.content_type) i.size_bytes;
        object_key = object_key_of bucket fresh i;
      })

    -- The object itself is then deleted, as far as the store allows.
    unfoldable pub reject : Media → (reason : ℕ) → Exec (Db R) Media
    reject m reason = do
      save m.id (λ d. record d { status = rejected; rejection_reason = some reason })
      pure (record m { status = rejected; rejection_reason = some reason })

    unfoldable pub process : Media → (size : ℕ) → Exec (Db R) Media
    process m size = do save m.id (processed bucket m size); pure (processed bucket m size m)

    -- The scan and what follows it, of an object of that size.
    unfoldable pub scan : Media → (size : ℕ) → Exec (Db R) Media
    scan m size =
        if ltb (media_max_size_bytes m.kind) size
        then reject m too_large
        else if not (
            matches_signature (read_object_prefix bucket m.object_key signature_prefix_bytes)
              m.content_type)
        then reject m wrong_content
        else process m size

    unfoldable pub finalize : (id owner : ℕ) → Exec (Db R) Media
    unfolding scan
    finalize id owner = do
      m ← require_owned id owner
      guard (is_pending m.status) (domain bad_request media_already_finalized)
      size ← require_some (head_object bucket m.object_key) (domain bad_request media_not_uploaded)
      scan m size

    unfoldable pub describe_for_display : (now : ℕ) → List ℕ → Db R → List MediaDisplay
    describe_for_display now ids s =
        map
          (λ m.
            let download = create_presigned_download_url bucket m.object_key in
            record {
              doc = m;
              size_bytes = get_or m.actual_size_bytes m.declared_size_bytes;
              url = download.url;
              url_expires_at = now + download.expires_in_seconds * 1000;
            })
          (mongo.find (λ m. contains m.id (distinct ids) && is_ready m.status) s.media)
