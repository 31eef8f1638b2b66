-- ===== src/Assets/Prog.antt =====
-- The statements on the files' and folders' tables, as the calls of a program.
use titan_explorer.Base.{ℕ, String, Bool, Option, List}
use titan_explorer.Base.Program.{Program}
use titan_explorer.Base.Sql.{Scan}
use titan_explorer.Assets.Types.{UserAsset, SubAssetDetail}

-- What answers only an error.
pub data Stmt : Type 0 where
  begin commit rollback : Stmt
  -- by hash and user
  delete_asset delete_visits share_asset : String → String → Stmt
  insert_asset update_asset : UserAsset → Stmt
  rename_asset : String → String → String → Stmt
  set_asset_group : String → String → ℕ → Stmt
  -- by hash, with a cid
  set_cid : String → String → Stmt
  -- by hash, user and areas
  upsert_areas insert_areas delete_areas : String → String → List String → Stmt
  update_areas : String → String → List String → Bool → Stmt
  -- by user and hash
  insert_map : String → String → Stmt
  -- by user, and a number of bytes
  add_used sub_used_floor sub_used : String → ℕ → Stmt
  -- by user and cid
  delete_links : String → String → Stmt
  -- by user and folder
  delete_children delete_group share_group visit_group : String → ℕ → Stmt
  rename_group : String → String → ℕ → Stmt
  set_parent : String → ℕ → ℕ → Stmt
  -- by user and folders
  delete_areas_in delete_assets_in delete_groups enqueue : String → List ℕ → Stmt
  -- by area, with the files' cids: a call of the area's scheduler
  remove_records : String → List String → Stmt

pub data Cmd : Type 0 where
  exec : Stmt → Cmd
  -- by hash and user
  select_asset select_size select_areas : String → String → Cmd
  select_areas_among : String → String → List String → Cmd
  -- by user and folder
  select_group count_assets count_children : String → ℕ → Cmd
  select_parent : ℕ → Cmd
  count_groups : String → Cmd
  insert_group : String → String → ℕ → Cmd
  -- by user and folders
  select_children sum_sizes select_only : String → List ℕ → Cmd

-- Of a statement, `true` says that there is an error.
abbrev pub Resp : Cmd → Type 0
Resp (Cmd.exec _) = Bool
Resp (Cmd.select_asset _ _) = Scan UserAsset
Resp (Cmd.select_size _ _) = Scan SubAssetDetail
Resp (Cmd.select_areas _ _) = Option (List String)
Resp (Cmd.select_areas_among _ _ _) = Option (List String)
Resp (Cmd.select_group _ _) = Scan ℕ
Resp (Cmd.count_assets _ _) = Option ℕ
Resp (Cmd.count_children _ _) = Option ℕ
Resp (Cmd.select_parent _) = Scan ℕ
Resp (Cmd.count_groups _) = Option ℕ
Resp (Cmd.insert_group _ _ _) = Option ℕ
Resp (Cmd.select_children _ _) = Option (List ℕ)
Resp (Cmd.sum_sizes _ _) = Option ℕ
Resp (Cmd.select_only _ _) = Option (List (String × List String))

abbrev pub Prog : Type 0 → Type 0
Prog A = Program Cmd Resp A
