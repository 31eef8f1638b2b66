-- ===== src/Assets/Files.antt =====
-- The statements on a user's files, in transactions (core/dao/user_assets.go). `true` is an error.
pub mod Sizes
pub mod Steps
pub mod Balance
pub mod Requests
pub mod Sizing
pub mod Refine
use titan_explorer.Base.{
  ℕ, suc, String, Bool, true, false, Option, none, some, List, [], ◌∷◌, length, if◌then◌else◌,
  str_eq, ◌==◌,
}
use titan_explorer.Base.Program.{ret, call, ask, ◌>>=◌, ◌>>◌}
use titan_explorer.Base.Sql.{Scan, scan_error, no_rows, scanned}
use titan_explorer.Assets.Types.{UserAsset, SubAssetDetail}
use titan_explorer.Assets.Prog.{Stmt, Cmd, Prog}

abbrev pub exec : Stmt → Prog Bool
exec s = ask (Cmd.exec s)

-- `_, err = tx.ExecContext(…); if err != nil { return err }`
abbrev pub or_error : Stmt → Prog Bool → Prog Bool
or_error s rest = do err ← exec s; if err then ret true else rest

-- `tx, err := DB.Beginx(); if err != nil { return err }; defer tx.Rollback()`
abbrev pub in_tx : Prog Bool → Prog Bool
in_tx body = or_error Stmt.begin (do err ← body; exec Stmt.rollback; ret err)

abbrev pub is_empty : List String → Bool
is_empty [] = true
is_empty (_ ∷ _) = false

-- The user whom `GetUserAsset` reads: the empty text where there is no row. An error ends with it.
abbrev pub owner_read : Scan UserAsset → Option String
owner_read scan_error = none
owner_read no_rows = some ""
owner_read (scanned a) = some a.user_id

-- The rows of a file; the file's size counts if there was none.
unfoldable pub add_areas : UserAsset → List String → String → Bool → Prog Bool
add_areas asset area_ids sync_area counts =
    or_error (Stmt.upsert_areas asset.hash asset.user_id (sync_area ∷ [])) (
      or_error (Stmt.insert_areas asset.hash asset.user_id area_ids) (
        or_error (Stmt.insert_map asset.user_id asset.hash) (
          if counts
          then or_error (Stmt.add_used asset.user_id asset.total_size) (exec Stmt.commit)
          else exec Stmt.commit)))

unfoldable pub add_read : UserAsset → List String → String → Scan UserAsset → Prog Bool
unfolding add_areas
add_read asset area_ids sync_area scan_error = ret true
add_read asset area_ids sync_area no_rows =
    or_error (Stmt.insert_asset asset) (add_areas asset area_ids sync_area true)
add_read asset area_ids sync_area (scanned ua) =
    add_areas asset area_ids sync_area (str_eq ua.user_id "")

unfoldable pub add_asset_and_update_size : UserAsset → List String → String → Prog Bool
unfolding add_read
add_asset_and_update_size asset area_ids sync_area = in_tx (
    if is_empty area_ids then ret true else (do
      ua ← ask (Cmd.select_asset asset.hash asset.user_id)
      add_read asset area_ids sync_area ua))

-- What is deleted with the file, once its size and its cid are read.
unfoldable pub del_read : String → String → Scan SubAssetDetail → Prog Bool
del_read hash user_id scan_error = ret true
del_read hash user_id no_rows = ret true
del_read hash user_id (scanned sa) = or_error (Stmt.delete_asset hash user_id) (
    or_error (Stmt.sub_used_floor user_id sa.total_size) (
      or_error (Stmt.delete_links user_id sa.cid)
        (or_error (Stmt.delete_visits hash user_id) (exec Stmt.commit))))

unfoldable pub del_asset_and_update_size : String → String → List String → Bool → Prog Bool
unfolding del_read
del_asset_and_update_size hash user_id area_id is_need_del = in_tx (
    or_error (Stmt.delete_areas hash user_id area_id) (
      if is_need_del
      then (do sa ← ask (Cmd.select_size hash user_id); del_read hash user_id sa)
      else exec Stmt.commit))

-- What of the named areas has the file.
unfoldable pub exist_read : List String → Option (List String) → Prog (Option (List String × Bool))
exist_read aids none = ret none
exist_read aids (some exist_aids) = ret (some (exist_aids, length aids == length exist_aids))

unfoldable pub aids_read :
    String → String → List String → Option (List String) → Prog (Option (List String × Bool))
unfolding exist_read
aids_read hash uid area_id none = ret none
aids_read hash uid area_id (some aids) =
    if is_empty area_id
    then ret (some (aids, true))
    else (do read ← ask (Cmd.select_areas_among hash uid area_id); exist_read aids read)

-- The areas to delete a file from, and whether the file itself goes: always, where none are named.
unfoldable pub check_user_aseet_need_del :
    String → String → List String → Prog (Option (List String × Bool))
unfolding aids_read
check_user_aseet_need_del hash uid area_id = do
  read ← ask (Cmd.select_areas hash uid)
  aids_read hash uid area_id read

-- Single statements on a file.
abbrev pub update_asset_share_status : String → String → Prog Bool
update_asset_share_status hash user_id = exec (Stmt.share_asset hash user_id)

abbrev pub update_asset_cid : String → String → Prog Bool
update_asset_cid hash cid = exec (Stmt.set_cid hash cid)

abbrev pub update_asset_name : String → String → String → Prog Bool
update_asset_name new_name uid hash = exec (Stmt.rename_asset new_name uid hash)

abbrev pub update_asset_group : String → String → ℕ → Prog Bool
update_asset_group user_id hash group_id = exec (Stmt.set_asset_group user_id hash group_id)

abbrev pub update_user_asset : UserAsset → Prog Bool
update_user_asset asset = exec (Stmt.update_asset asset)

abbrev pub update_un_sync_area_ids : String → String → List String → Bool → Prog Bool
update_un_sync_area_ids uid hash aids is_sync = exec (Stmt.update_areas hash uid aids is_sync)

abbrev pub add_user_asset_map : String → String → Prog Bool
add_user_asset_map user_id hash = exec (Stmt.insert_map user_id hash)
