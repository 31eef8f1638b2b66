-- ===== src/Queue/Client.antt =====
-- The methods of `Client` in core/oprds/redis.go; `none` is an error.
use titan_explorer.Base.{
  String, Bool, true, Option, none, some, List, [], ◌∷◌, ltb, if◌then◌else◌, or_return,
}
use titan_explorer.Base.Int.{ℤ, pos, leb_ℤ}
use Prim.Native.String.{◌++◌ as concat}
use titan_explorer.Queue.Redis.{Redis, Json, nil, int, int_error}

pub record Payload : Type 0 where
  pub user_id : String
  pub cid : String
  pub hash : String
  pub owner : String
  pub area_id : String

-- `AreaIDPayload`
pub record AreaIdPayload : Type 0 where
  pub cid : String
  pub hash : String
  pub area_ids : List String

abbrev pub schckey : String
schckey = "sync_scheduler_list"

abbrev pub area_key : String
area_key = "sync_scheduler_list_unlogin"

module _ {S : Type 0} (rds : Redis S) where
  -- What the two queues share: `LPush`, `LRem` with count 1, and `LRange`, where an entry that does
  -- not decode is skipped.
  unfoldable pub push_info : {A : Type 0} → Json A → String → A → S → Option S
  push_info json key payload s = or_return (json.marshal payload) none λ body. rds.lpush key body s

  unfoldable pub del_info : {A : Type 0} → Json A → String → A → S → Option S
  del_info json key payload s =
      or_return (json.marshal payload) none λ body. rds.lrem_one key body s

  unfoldable pub decode_all : {A : Type 0} → Json A → List String → List A
  decode_all json [] = []
  decode_all json (v ∷ res) =
      let ps = decode_all json res in or_return (json.unmarshal v) ps λ payload. payload ∷ ps

  unfoldable pub get_all_infos : {A : Type 0} → Json A → String → S → Option (List A)
  unfolding decode_all
  get_all_infos json key s = or_return (rds.lrange key s) none λ res. some (decode_all json res)

  unfoldable pub push_scheduler_info : Json Payload → Payload → S → Option S
  unfolding push_info
  push_scheduler_info json = push_info json schckey

  unfoldable pub get_all_scheduler_infos : Json Payload → S → Option (List Payload)
  unfolding get_all_infos
  get_all_scheduler_infos json = get_all_infos json schckey

  unfoldable pub del_scheduler_info : Json Payload → Payload → S → Option S
  unfolding del_info
  del_scheduler_info json = del_info json schckey

  -- `PushAreaIDs`
  unfoldable pub push_area_ids : Json AreaIdPayload → AreaIdPayload → S → Option S
  push_area_ids json payload s = or_return (json.marshal payload) none λ body.
      or_return (rds.lrem_all area_key body s) none
        λ removed. if ltb 0 removed.0 then some removed.1 else rds.lpush area_key body removed.1

  unfoldable pub get_all_area_ids : Json AreaIdPayload → S → Option (List AreaIdPayload)
  unfolding get_all_infos
  get_all_area_ids json = get_all_infos json area_key

  unfoldable pub del_area_ids : Json AreaIdPayload → AreaIdPayload → S → Option S
  unfolding del_info
  del_area_ids json = del_info json area_key

  -- The keys of the counters, by `Sprintf`.
  abbrev pub un_sync_key : String → String
  un_sync_key node_id = concat "unsync_nodeid" (concat "_" node_id)

  abbrev pub download_key : String → String → String
  download_key hash user_id =
      concat "asset_download" (concat "_" (concat user_id (concat "_" hash)))

  unfoldable pub incr_un_sync_node_id : String → S → Option S
  incr_un_sync_node_id node_id s = rds.incr (un_sync_key node_id) s

  unfoldable pub check_un_sync_node_id : String → S → Option Bool
  check_un_sync_node_id node_id s = elim (rds.get_int (un_sync_key node_id) s) [
    | nil ↦ some true
    | int num ↦ some (leb_ℤ num (pos 5))
    | int_error ↦ none
  ]

  unfoldable pub incr_asset_hour_download : String → String → S → Option S
  incr_asset_hour_download hash user_id s = rds.incr (download_key hash user_id) s

  -- The count, or an error, and the store after it.
  unfoldable pub get_asset_hour_download : String → String → S → Option ℤ × S
  get_asset_hour_download hash user_id s =
      let key = download_key hash user_id in
      elim (rds.get_int key s) [
        | nil ↦ (some (pos 0), s)
        | int v ↦ (some v, rds.del key s)
        | int_error ↦ (none, rds.del key s)
      ]
