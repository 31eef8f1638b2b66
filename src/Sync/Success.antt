-- ===== src/Sync/Success.antt =====
-- An area of `getSyncSuccessAsset` (job/cron.go): its records are read, and the rows of the files that
-- it has are marked.
use titan_explorer.Base.{
  ◌≡◌, refl, ap, ◌∙◌, String, Bool, true, false, ◌&&◌, ◌||◌, Option, none, some, List, [], ◌∷◌, map,
  arith, if◌then◌else◌, str_eq,
}
use titan_explorer.Assets.Types.{UserAssetArea}
use titan_explorer.Assets.Rows.{among, set_sync}
use titan_explorer.Sync.Rows.{update_sync_asset_areas}
use titan_explorer.Sync.Records.{
  AssetRecord, Outside, Action, Pages, get_sync_success_hash, listed, complete,
  get_sync_success_hash_complete,
}

module _ (o : Outside) (reachable fails : Bool) (area_id : String) (t : List UserAssetArea) where
  abbrev mark_hashs : Option (List String × List Action) → List UserAssetArea × List Action
  mark_hashs none = (t, [])
  mark_hashs (some (hashs, actions)) =
      ((if fails then t else update_sync_asset_areas area_id hashs t), actions)

  -- `fails` says whether the update does. The answer is the rows after it, and what was removed or
  -- queued again.
  unfoldable pub get_sync_success_asset : Pages → List UserAssetArea × List Action
  unfolding get_sync_success_hash update_sync_asset_areas
  get_sync_success_asset get = mark_hashs (get_sync_success_hash o t reachable get)

-- The row of a file that is complete in the area is synchronised.
abbrev pub in_area : String → List AssetRecord → UserAssetArea → UserAssetArea
in_area area_id all r = record r {
  is_sync = r.is_sync || (str_eq r.area_id area_id && among r.hash (complete all));
}

update_sync_asset_areas-map :
    (area_id : String) (all : List AssetRecord) (t : List UserAssetArea)
    → update_sync_asset_areas area_id (complete all) t ≡ map (in_area area_id all) t
unfolding update_sync_asset_areas set_sync
update_sync_asset_areas-map area_id all [] = refl
update_sync_asset_areas-map area_id all (r ∷ t) =
    ground (arith, update_sync_asset_areas-map area_id all t)

-- Where no page and no statement fails and the scheduler's list stays as it is, a round over an area
-- reads the list to its end, whatever its length: exactly the rows of the area whose files have a
-- record that is complete become synchronised. It never removes a record from the scheduler and never
-- queues a synchronisation again, however long a record has been there.
pub get_sync_success_asset_marks :
    (o : Outside) (area_id : String) (all : List AssetRecord) (t : List UserAssetArea)
    → get_sync_success_asset o true false area_id t (listed all) ≡ (map (in_area area_id all) t, [])
unfolding get_sync_success_asset
get_sync_success_asset_marks o area_id all t =
    ap (mark_hashs o true false area_id t) (get_sync_success_hash_complete o t all)
    ∙ ap (λ l. (l, [])) (update_sync_asset_areas-map area_id all t)
