-- ===== src/Assets/Jobs.antt =====
-- The job that empties removed folders (job/handler_delete_asset_group.go) and the transaction that
-- it runs (`DeleteUserGroupAsset` of core/dao/user_assets.go).
pub mod Groups
pub mod Ending
use titan_explorer.Base.{
  ℕ, zero, suc, String, Bool, true, false, Option, none, some, List, [], ◌∷◌, if◌then◌else◌,
}
use titan_explorer.Base.Program.{Program, ret, call, ask, ◌>>=◌, ◌>>◌, skip, or_skip, for_each}
use titan_explorer.Assets.Prog.{Stmt, Cmd, Prog}
use titan_explorer.Assets.Files.{exec, or_error, in_tx}
use titan_explorer.Assets.Folders.{Result, ok, out_of_fuel}

-- The areas' rows go before the files, by whose hashes they are found.
unfoldable pub delete_user_group_asset : String → List ℕ → Prog Bool
delete_user_group_asset user_id gids = in_tx (
    or_error (Stmt.delete_areas_in user_id gids) (
      or_error (Stmt.delete_assets_in user_id gids)
        (or_error (Stmt.delete_groups user_id gids) (exec Stmt.commit))))

-- A scheduler that cannot be reached, or refuses, is passed over.
abbrev pub remove_one : String × List String → Prog (Unit {0})
remove_one (area, cids) = do exec (Stmt.remove_records area cids); skip

unfoldable pub delete_asset_by_group : String → List ℕ → Prog (Unit {0})
unfolding delete_user_group_asset for_each
delete_asset_by_group uid gids = do
  err ← delete_user_group_asset uid gids
  if err
      then (do exec (Stmt.enqueue uid gids); skip)
      else (do maps ← ask (Cmd.select_only uid gids); or_skip maps λ maps. for_each remove_one maps)

-- What follows the read of the next level. Where it fails, `pids` is nil, and so is what is
-- enqueued.
unfoldable pub next_level :
    (List ℕ → Prog (Result (Unit {0}))) → String → Option (List ℕ) → Prog (Result (Unit {0}))
next_level loop user_id none = do exec (Stmt.enqueue user_id []); ret (ok tt)
next_level loop user_id (some pids) = loop pids

unfoldable pub delete_asset_group_job : ℕ → String → List ℕ → Prog (Result (Unit {0}))
unfolding delete_asset_by_group next_level
delete_asset_group_job fuel user_id [] = ret (ok tt)
delete_asset_group_job zero user_id (p ∷ pids) = ret out_of_fuel
delete_asset_group_job (suc fuel) user_id (p ∷ pids) = do
  delete_asset_by_group user_id (p ∷ pids)
  next ← ask (Cmd.select_children user_id (p ∷ pids))
  next_level (delete_asset_group_job fuel user_id) user_id next
