-- ===== src/Sync/Round.antt =====
-- A payload of `syncUserScheduler`, on the rows of the files' areas: `GetUnSyncAreaIDs`,
-- `SyncShedulers`, `UpdateUnSyncAreaIDs`, and the payload's deletion from the queue.
use titan_explorer.Base.{
  String, Bool, true, false, not, Option, none, some, List, [], if◌then◌else◌,
}
use titan_explorer.Queue.Client.{Payload}
use titan_explorer.Assets.Types.{UserAssetArea}
use titan_explorer.Sync.Rows.{get_un_sync_area_ids}
use titan_explorer.Assets.Rows.{of_areas, set_sync}
use titan_explorer.Sync.Records.{AssetRecord}
use titan_explorer.Sync.States.{check_sync_state}
use titan_explorer.Sync.Areas.{Schedulers, sync_shedulers}

-- Whether the two statements fail, and the payload's deletion from the queue.
pub record Fails : Type 0 where
  pub on_read : Bool
  pub on_update : Bool
  pub on_delete : Bool

-- The rows after the round, the areas that were asked to create the file, and whether the payload is
-- taken off the queue.
pub record Round : Type 0 where
  pub areas : List UserAssetArea
  pub asked : List String
  pub done : Bool

abbrev pub left_alone : List UserAssetArea → Round
left_alone t = record { areas = t; asked = []; done = false }

-- The error of `DelSchedulerInfo` is not read.
unfoldable pub update_then :
    Fails → Payload → List UserAssetArea → List String × List String → Round
unfolding set_sync
update_then f v t (aids, asked) =
    if f.on_update then record { areas = t; asked = asked; done = false } else record {
      areas = set_sync (of_areas v.hash v.user_id aids) true t;
      asked = asked;
      done = not f.on_delete;
    }

abbrev pub update_or_stop :
    Fails → Payload → List UserAssetArea → Option (List String × List String) → Round
update_or_stop f v t none = left_alone t
update_or_stop f v t (some p) = update_then f v t p

abbrev pub is_complete : Option AssetRecord → Bool
is_complete none = false
is_complete (some r) = check_sync_state r.state

unfoldable pub sync_user_scheduler : Schedulers → Fails → Payload → List UserAssetArea → Round
unfolding check_sync_state get_un_sync_area_ids sync_shedulers update_then
sync_user_scheduler s f v t =
    if not (s.get_scheduler_client v.area_id)
    then left_alone t
    else if not (is_complete (s.get_asset_record v.area_id v.cid))
    then left_alone t
    else if f.on_read
    then left_alone t
    else update_or_stop f v t
        (sync_shedulers s v.cid v.owner (get_un_sync_area_ids v.user_id v.hash t))
