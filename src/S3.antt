-- ===== src/S3.antt =====
-- src/utils/aws/s3/s3.service.ts, with the limit of src/utils/aws/s3/s3.module.ts: the service that makes
-- the addresses of uploaded files. `C` is the client of the library.
use nestjs_stay_api.Common.{ℕ, ◌*◌, Option, none, some, List, [], ◌∷◌, String}
use nestjs_stay_api.Texts.{cloud_front_url}

-- `AwsS3Config`, with the member of the profile that the service reads
pub record UserProfile : Type 0 where
  pub bucket : String
  pub acl : Option String
  pub server_side_encryption : Option String
  pub cloud_front_domain : Option String

pub record AwsS3Config : Type 0 where
  pub user_profile : UserProfile

pub record S3Service (C : Type 0) : Type 0 where
  pub s3 : C
  pub aws_s3_config : AwsS3Config

-- The constructor, with the one of the library's client; a missing configuration is a TypeError.
unfoldable pub s3_service :
    {C : Type 0} → (UserProfile → C) → Option AwsS3Config → Option (S3Service C)
s3_service s3_client none = none
s3_service s3_client (some config) =
    some (record { s3 = s3_client config.user_profile; aws_s3_config = config })

-- `getCloudFrontUrl`; a missing domain is a TypeError.
unfoldable pub get_cloud_front_url : {C : Type 0} → String → S3Service C → Option String
unfolding cloud_front_url
get_cloud_front_url key service = elim service.aws_s3_config.user_profile.cloud_front_domain [
  | none ↦ none
  | some domain ↦ some (cloud_front_url domain key)
]

abbrev pub allowed_mime_types : List String
allowed_mime_types = "image/jpeg" ∷ "image/png" ∷ "video/mp4" ∷ []

-- The limit of an upload in src/utils/aws/s3/s3.module.ts, in bytes
abbrev pub file_size_limit : ℕ
file_size_limit = 20 * 1024 * 1024
