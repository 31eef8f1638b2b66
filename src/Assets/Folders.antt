-- ===== src/Assets/Folders.antt =====
-- The folders of users: CreateAssetGroup, DeleteAssetGroup, MoveAssetGroup and their kin
-- (core/dao/user_assets.go, core/dao/asset_types.go). The two loops, which climb the folders and
-- descend into them, take fuel: a number of rounds after which they are given up.
pub mod Forest
pub mod Shape
pub mod Move
pub mod Depth
pub mod Climb
pub mod Levels
pub mod Steps
pub mod Requests
pub mod Loops
pub mod Race
pub mod Ending
use titan_explorer.Base.{
  ℕ, zero, suc, ◌+◌, String, Bool, true, false, not, Option, none, some, List, [], ◌∷◌, ◌++◌,
  if◌then◌else◌, leb, ◌==◌,
}
use titan_explorer.Base.Program.{Program, ret, call, ask, ◌>>=◌, ◌>>◌}
use titan_explorer.Base.Sql.{Scan, scan_error, no_rows, scanned}
use titan_explorer.Assets.Prog.{Stmt, Cmd, Prog}
use titan_explorer.Assets.Files.{exec}

-- An error of the database, `sql.ErrNoRows` included, or an `ErrWeb` with its code.
pub data GroupError : Type 0 where
  db_error : GroupError
  group_not_exist group_limit group_not_empty_cannot_be_delete : GroupError
  root_group_cannot_moved groups_are_same cannot_move_to_subgroup : GroupError

pub data Result (A : Type 0) : Type 0 where
  ok : A → Result A
  refuse : GroupError → Result A
  out_of_fuel : Result A

-- `if err != nil { return …, err }`; where there is no row, `Get` answers `sql.ErrNoRows`.
abbrev pub or_failed : {A B : Type 0} → Scan A → (A → Prog (Result B)) → Prog (Result B)
or_failed scan_error f = ret (refuse db_error)
or_failed no_rows f = ret (refuse db_error)
or_failed (scanned a) f = f a

abbrev pub or_db_error : {A B : Type 0} → Option A → (A → Prog (Result B)) → Prog (Result B)
or_db_error none f = ret (refuse db_error)
or_db_error (some a) f = f a

abbrev pub exec_last : Stmt → Prog (Result (Unit {0}))
exec_last s = do err ← exec s; ret (if err then refuse db_error else ok tt)

-- `exists, err := assetGroupExists(…)`, and what follows where it exists.
unfoldable pub if_exists : {B : Type 0} → String → ℕ → Prog (Result B) → Prog (Result B)
if_exists uid gid rest = do
  id ← ask (Cmd.select_group uid gid)
  or_failed id λ id. if leb 1 id then rest else ret (refuse group_not_exist)

-- The count, the limit of 20 and the insertion.
unfoldable pub create_within_limit : String → String → ℕ → Prog (Result ℕ)
create_within_limit uid name parent = do
  count ← ask (Cmd.count_groups uid)
  or_db_error count λ n.
      if leb 20 n
      then ret (refuse group_limit)
      else (do id ← ask (Cmd.insert_group uid name parent); or_db_error id λ id. ret (ok id))

-- The id of the folder that is created.
unfoldable pub create_asset_group : String → String → ℕ → Prog (Result ℕ)
unfolding if_exists create_within_limit
create_asset_group uid name parent =
    if parent == 0
    then create_within_limit uid name parent
    else if_exists uid parent (create_within_limit uid name parent)

-- `tx, err := DB.Beginx(); if err != nil { return err }`
abbrev pub begin_then : Prog (Result (Unit {0})) → Prog (Result (Unit {0}))
begin_then rest = do err ← exec Stmt.begin; if err then ret (refuse db_error) else rest

-- An error returns, by way of the deferred rollback.
abbrev pub or_roll_back : Stmt → Prog (Result (Unit {0})) → Prog (Result (Unit {0}))
or_roll_back s rest = do
  err ← exec s
  if err then (do exec Stmt.rollback; ret (refuse db_error)) else rest

-- `return tx.Commit()`, and the deferred rollback.
abbrev pub commit_last : Prog (Result (Unit {0}))
commit_last = do
  err ← exec Stmt.commit
  exec Stmt.rollback
  ret (if err then refuse db_error else ok tt)

-- The transaction of `deleteAssetGroup`.
unfoldable pub delete_empty_group : String → ℕ → Prog (Result (Unit {0}))
delete_empty_group user_id gid = begin_then (
    or_roll_back (Stmt.delete_children user_id gid)
      (or_roll_back (Stmt.delete_group user_id gid) commit_last))

-- A folder with files or with folders is refused.
unfoldable pub delete_asset_group : String → ℕ → Prog (Result (Unit {0}))
unfolding delete_empty_group
delete_asset_group uid gid = do
  files ← ask (Cmd.count_assets uid gid)
  or_db_error files λ n. if leb 1 n then ret (refuse group_not_empty_cannot_be_delete) else (do
    folders ← ask (Cmd.count_children uid gid)
    or_db_error folders λ n.
        if leb 1 n
        then ret (refuse group_not_empty_cannot_be_delete)
        else delete_empty_group uid gid)

-- `Prevent loops`: from `gid` up to the root, a round for each folder.
unfoldable pub prevent_loops : ℕ → ℕ → ℕ → Prog (Result (Unit {0}))
prevent_loops zero group_id gid = ret out_of_fuel
prevent_loops (suc fuel) group_id gid = do
  parent ← ask (Cmd.select_parent gid)
  or_failed parent λ gid. elim (gid == group_id) [
    | true ↦ ret (refuse cannot_move_to_subgroup)
    | false ↦ elim (gid == 0) [ true ↦ ret (ok tt) | false ↦ prevent_loops fuel group_id gid ]
  ]

-- What follows a check that passes.
abbrev pub if_ok : {A B : Type 0} → Result A → (A → Prog (Result B)) → Prog (Result B)
if_ok (ok a) f = f a
if_ok (refuse e) f = ret (refuse e)
if_ok out_of_fuel f = ret out_of_fuel

unfoldable pub move_asset_group : ℕ → String → ℕ → ℕ → Prog (Result (Unit {0}))
unfolding if_exists prevent_loops
move_asset_group fuel user_id group_id target_group_id =
    if group_id == 0
    then ret (refuse root_group_cannot_moved)
    else if group_id == target_group_id
    then ret (refuse groups_are_same)
    else if target_group_id == 0
    then exec_last (Stmt.set_parent user_id group_id target_group_id)
    else if_exists user_id target_group_id (do
      free ← prevent_loops fuel group_id target_group_id
      if_ok free λ _. exec_last (Stmt.set_parent user_id group_id target_group_id))

abbrev pub update_asset_group_name : String → String → ℕ → Prog (Result (Unit {0}))
update_asset_group_name uid rename group_id = exec_last (Stmt.rename_group uid rename group_id)

abbrev pub update_group_share_status : String → ℕ → Prog (Result (Unit {0}))
update_group_share_status user_id group_id = exec_last (Stmt.share_group user_id group_id)

abbrev pub add_asset_group_visit_count : String → ℕ → Prog (Result (Unit {0}))
add_asset_group_visit_count user_id id = exec_last (Stmt.visit_group user_id id)

-- All folders below `gids`, level by level; `ids` is the level that was read last.
unfoldable pub collect : ℕ → String → List ℕ → List ℕ → Prog (Result (List ℕ))
collect fuel user_id gids [] = ret (ok gids)
collect zero user_id gids (id ∷ ids) = ret out_of_fuel
collect (suc fuel) user_id gids (id ∷ ids) = do
  next ← ask (Cmd.select_children user_id (id ∷ ids))
  or_db_error next λ next. collect fuel user_id (gids ++ next) next

-- The transaction: the folder's row goes, and the sizes of all files below it are taken off.
unfoldable pub delete_outer : String → ℕ → ℕ → Prog (Result (Unit {0}))
delete_outer user_id gid tsize = begin_then (
    or_roll_back (Stmt.delete_group user_id gid)
      (or_roll_back (Stmt.sub_used user_id tsize) commit_last))

unfoldable pub delete_asset_group_and_update_size : ℕ → String → ℕ → Prog (Result (Unit {0}))
unfolding collect delete_outer
delete_asset_group_and_update_size fuel user_id gid = do
  gids ← collect fuel user_id (gid ∷ []) (gid ∷ [])
  if_ok gids λ gids. do
    tsize ← ask (Cmd.sum_sizes user_id gids)
    or_db_error tsize λ tsize. delete_outer user_id gid tsize
