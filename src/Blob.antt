-- ===== src/Blob.antt =====
-- blob.go: what the two storages share. A key, a name and a checksum are texts; the tags and the
-- contents are bytes. A time is nanoseconds, and the zero time is 0.
pub mod Tags
pub mod Database
pub mod Files
pub mod Command
use Prim.Native.String.{◌++◌}
use fluxor_db.Base.{ℕ, ◌≡◌, String, Bool, Option, none, some, length, if◌then◌else◌}
use fluxor_db.Base.Bytes.{Bytes}
use fluxor_db.Base.Decimal.{decimal}
use fluxor_db.Base.Int.{ℤ, pos, is_pos, pos_part, ltb_ℤ}
use fluxor_db.Errors.{Err, message}
use Tags.{TagMap}

pub record BlobMetadata : Type 0 where
  pub content_type : String
  pub filename : String
  pub size : ℤ
  pub checksum : String
  pub tags : TagMap
  pub created_at : ℕ
  pub updated_at : ℕ

pub record BlobData : Type 0 where
  pub key : String
  pub contents : Bytes
  pub metadata : BlobMetadata

pub record BlobInfo : Type 0 where
  pub key : String
  pub metadata : BlobMetadata

pub record BlobStats : Type 0 where
  pub total_blobs : ℤ
  pub total_size : ℤ
  pub used_space : ℤ

pub record BlobStorageConfig : Type 0 where
  pub backend : String
  pub root_path : String
  pub table_name : String
  pub max_size : ℤ
  pub compression : Bool

-- 100 MB unless the configuration says otherwise.
unfoldable pub max_size_of : BlobStorageConfig → ℤ
max_size_of config = if is_pos config.max_size then config.max_size else pos 104857600

-- `if len(data) > int(maxSize)`
unfoldable pub too_large : ℤ → Bytes → Bool
too_large max_size contents = ltb_ℤ max_size (pos (length contents))

abbrev pub size_error : ℤ → Bytes → Err
size_error max_size contents = message (
    "blob size " ++ decimal (length contents) ++ " exceeds maximum " ++ decimal (pos_part max_size))
