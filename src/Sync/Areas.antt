-- ===== src/Sync/Areas.antt =====
-- `SyncShedulers`: for each area of a list, whether the area has the file already, and else a request
-- to create it there.
use titan_explorer.Base.{
  ◌≡◌, refl, String, Bool, false, not, ◌&&◌, Option, none, some, List, [], ◌∷◌, keep, arith,
  if◌then◌else◌, str_eq, ltb,
}
use titan_explorer.Sync.Records.{AssetRecord}

-- What schedulers answer: whether the source gives a token for the download, whether an area's client
-- is there, and the area's record of the file.
pub record Schedulers : Type 0 where
  pub generate_token_for_download_sources : String → Bool
  pub get_scheduler_client : String → Bool
  pub get_asset_record : String → String → Option AssetRecord

module _ (s : Schedulers) (cid owner : String) where
  -- The area has replicas of the owner's file.
  unfoldable pub has_file : Option AssetRecord → Bool
  has_file none = false
  has_file (some r) = ltb 0 r.replica_infos && str_eq r.owner owner

  -- The loop: the areas that have the file, and those asked to create it. The error of a request is
  -- only logged.
  unfoldable pub sync_each : List String → List String × List String
  unfolding has_file
  sync_each [] = ([], [])
  sync_each (area ∷ areas) =
      let rest = sync_each areas in
      if s.get_scheduler_client area
      then if has_file (s.get_asset_record area cid)
        then (area ∷ rest.0, rest.1)
        else (rest.0, area ∷ rest.1)
      else rest

  -- `none` is an error.
  unfoldable pub sync_shedulers : List String → Option (List String × List String)
  unfolding sync_each
  sync_shedulers [] = some ([], [])
  sync_shedulers (area ∷ areas) =
      if s.generate_token_for_download_sources cid then some (sync_each (area ∷ areas)) else none

  abbrev pub synced : String → Bool
  synced area = s.get_scheduler_client area && has_file (s.get_asset_record area cid)

  abbrev pub lacking : String → Bool
  lacking area = s.get_scheduler_client area && not (has_file (s.get_asset_record area cid))

  pub sync_each-keep :
      (areas : List String) → sync_each areas ≡ (keep synced areas, keep lacking areas)
  unfolding sync_each
  sync_each-keep [] = refl
  sync_each-keep (area ∷ areas) = ground (arith, sync_each-keep areas)
