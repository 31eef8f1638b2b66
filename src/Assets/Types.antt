-- ===== src/Assets/Types.antt =====
-- The rows of the storage users' files and folders (core/dao/user_assets.go, core/dao/asset_types.go,
-- core/generated/model/model_gen.go), with the columns that the modelled statements name. A time is
-- a number of seconds; a size is a number of bytes, never negative.
use titan_explorer.Base.{ℕ, String, Bool, List}
use titan_explorer.Base.Int.{ℤ}

-- `user_asset`; the key is (hash, user_id).
pub record UserAsset : Type 0 where
  pub user_id : String
  pub hash : String
  pub cid : String
  pub asset_name : String
  pub asset_type : String
  pub share_status : ℕ
  pub expiration : ℕ
  pub created_time : ℕ
  pub total_size : ℕ
  pub password : String
  pub group_id : ℕ
  pub md5 : String
  pub extra_id : String
  pub client_ip : String

-- `user_asset_area`; the key is (hash, user_id, area_id).
pub record UserAssetArea : Type 0 where
  pub hash : String
  pub user_id : String
  pub area_id : String
  pub is_sync : Bool

-- `user_asset_group`; the key is `id`, which the table counts up from 1.
pub record AssetGroup : Type 0 where
  pub id : ℕ
  pub user_id : String
  pub name : String
  pub parent : ℕ
  pub share_status : ℕ
  pub visit_count : ℕ

-- `users`, its key and the storage that is used.
pub record UserSize : Type 0 where
  pub username : String
  pub used_storage_size : ℤ

-- `asset_visit_count`
pub record Visit : Type 0 where
  pub hash : String
  pub user_id : String
  pub count : ℕ

-- `link`
pub record Link : Type 0 where
  pub username : String
  pub cid : String

-- `user_asset_map`
pub record AssetMap : Type 0 where
  pub user_id : String
  pub asset_hash : String

-- `AssetGroupPayload`: folders of a user whose contents are to be deleted.
pub record AssetGroupPayload : Type 0 where
  pub user_id : String
  pub group_id : List ℕ

pub record SubAssetDetail : Type 0 where
  pub cid : String
  pub total_size : ℕ

pub record Tables : Type 0 where
  pub assets : List UserAsset
  pub areas : List UserAssetArea
  pub groups : List AssetGroup
  pub next_id : ℕ
  pub users : List UserSize
  pub visits : List Visit
  pub links : List Link
  pub maps : List AssetMap
  -- outside of the database: the queue of tasks, and the files that schedulers were told to remove
  pub tasks : List AssetGroupPayload
  pub removals : List (String × List String)
