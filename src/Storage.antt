-- ===== src/Storage.antt =====
-- apps/api/src/infrastructure/storage/storage.service.ts: the object store. The bucket (S3 or MinIO,
-- through its SDK) is a parameter; so is the signing of URLs.
use appforfixiyi.Common.{
  ℕ, Bool, ◌&&◌, ◌||◌, Option, List, is_some, Text, ◌==◌, leb, if◌then◌else◌, map, last_units,
}

-- What the bucket answers at the time of a call, and the URLs that are signed. `object_key` stands for
-- the text of a key, made of the folder of a target, an id and a cleaned file name; `image_size` is
-- that of the package image-size, `none` where it throws.
pub record Bucket : Type 0 where
  pub prefix : (key bytes : ℕ) → List ℕ
  pub image_size : List ℕ → Option (ℕ × ℕ)
  pub content_length : (key : ℕ) → Option ℕ
  pub sign_put : (key content_type size : ℕ) → ℕ
  pub sign_get : (key : ℕ) → ℕ
  pub object_key : (target id : ℕ) (file_name : Text) → ℕ

abbrev pub presigned_upload_ttl_seconds : ℕ
presigned_upload_ttl_seconds = 900

abbrev pub presigned_download_ttl_seconds : ℕ
presigned_download_ttl_seconds = 300

pub record PresignedUpload : Type 0 where
  pub url : ℕ
  pub expires_in_seconds : ℕ

-- `sanitizeFileName` of the media and the verification service: every code unit that is not a letter,
-- a digit, a point, an underscore or a dash becomes an underscore, and the last 100 are kept.
abbrev pub is_safe : ℕ → Bool
is_safe c =
    (leb b'a' c && leb c b'z')
    || (leb b'A' c && leb c b'Z')
    || (leb b'0' c && leb c b'9')
    || c == b'.'
    || c == b'_'
    || c == b'-'

unfoldable pub sanitize_file_name : Text → Text
sanitize_file_name name = last_units 100 (map (λ c. if is_safe c then c else b'_') name)

module _ (bucket : Bucket) where
  unfoldable pub read_object_prefix : (object_key byte_length : ℕ) → List ℕ
  read_object_prefix key n = bucket.prefix key n

  unfoldable pub create_presigned_upload_url :
      (object_key content_type content_length : ℕ) → PresignedUpload
  create_presigned_upload_url key content_type size = record {
    url = bucket.sign_put key content_type size;
    expires_in_seconds = presigned_upload_ttl_seconds;
  }

  unfoldable pub create_presigned_download_url : (object_key : ℕ) → PresignedUpload
  create_presigned_download_url key = record {
    url = bucket.sign_get key;
    expires_in_seconds = presigned_download_ttl_seconds;
  }

  unfoldable pub head_object : (object_key : ℕ) → Option ℕ
  head_object key = bucket.content_length key

  unfoldable pub object_exists : (object_key : ℕ) → Bool
  unfolding head_object
  object_exists key = is_some (head_object key)
