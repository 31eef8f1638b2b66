-- ===== src/Assets/Folders/Ending.antt =====
-- What requests on folders keep, and that their loops end.
use titan_explorer.Base.{
  ℕ, suc, ◌<◌, ◌≡◌, ◌≢◌, refl, sym, subst, String, none, List, [], ◌∷◌, length, arith, Bool,
}
use titan_explorer.Base.Program
use titan_explorer.Base.Program.{Outcome, returned, crashed}
use titan_explorer.Assets.Types.{Tables}
use titan_explorer.Assets.Prog.{Stmt, Cmd}
use titan_explorer.Assets.Store.{World, succeed, fail, effect, run}
use titan_explorer.Assets.Folders.{
  Result, ok, refuse, out_of_fuel, exec_last, create_asset_group, delete_asset_group,
  move_asset_group, delete_asset_group_and_update_size, update_asset_group_name,
  update_group_share_status, add_asset_group_visit_count,
}
use titan_explorer.Assets.Folders.Shape.{IsForest, update-IsForest}
use titan_explorer.Assets.Folders.Steps.{Kept, exec_last-Kept}
use titan_explorer.Assets.Folders.Requests.{create_asset_group-Kept, delete_asset_group-Kept}
use titan_explorer.Assets.Folders.Loops.{
  move_asset_group-Kept, delete_asset_group_and_update_size-Kept,
}

-- A request of a user.
pub data FolderRequest : Type 0 where
  create : String → String → ℕ → FolderRequest
  delete remove share visit : String → ℕ → FolderRequest
  move : String → ℕ → ℕ → FolderRequest
  rename : String → String → ℕ → FolderRequest

unfoldable pub step : (ℕ → Bool) → ℕ → FolderRequest → World → World
unfolding Program.run create_asset_group delete_asset_group move_asset_group
    delete_asset_group_and_update_size
step fails fuel (FolderRequest.create u name parent) w =
    (run fails (create_asset_group u name parent) w).1
step fails fuel (FolderRequest.delete u gid) w = (run fails (delete_asset_group u gid) w).1
step fails fuel (FolderRequest.remove u gid) w =
    (run fails (delete_asset_group_and_update_size fuel u gid) w).1
step fails fuel (FolderRequest.share u gid) w = (run fails (update_group_share_status u gid) w).1
step fails fuel (FolderRequest.visit u gid) w = (run fails (add_asset_group_visit_count u gid) w).1
step fails fuel (FolderRequest.move u gid target) w =
    (run fails (move_asset_group fuel u gid target) w).1
step fails fuel (FolderRequest.rename u name gid) w =
    (run fails (update_asset_group_name u name gid) w).1

-- Requests one after the other.
unfoldable pub serve_folders : (ℕ → Bool) → ℕ → List FolderRequest → World → World
unfolding step
serve_folders fails fuel [] w = w
serve_folders fails fuel (r ∷ rest) w = serve_folders fails fuel rest (step fails fuel r w)

kept :
    {A : Type 0} (fails : ℕ → Bool) (m fuel : ℕ) (r : Outcome (Result A) × World)
    → Kept fails m fuel r
    → IsForest r.1.tables × (r.1.saved ≡ none)
kept fails m fuel (returned (ok a), w) h = h
kept fails m fuel (returned (refuse e), w) h = h
kept fails m fuel (returned out_of_fuel, w) (h, s, l) = (h, s)
kept fails m fuel (crashed, w) h = absurd h

ended :
    {A : Type 0} (fails : ℕ → Bool) (m fuel : ℕ) (r : Outcome (Result A) × World)
    → Kept fails m fuel r
    → m < fuel
    → (a : Result A) × (r.0 ≡ returned a) × (a ≢ out_of_fuel)
ended fails m fuel (returned (ok a), w) h l = (ok a, refl, λ e. cc)
ended fails m fuel (returned (refuse e), w) h l = (refuse e, refl, λ e. cc)
ended fails m fuel (returned out_of_fuel, w) (h, s, b) l = absurd (omega arith)
ended fails m fuel (crashed, w) h l = absurd h

module _ (fails : ℕ → Bool) (fuel : ℕ) (t : Tables) (n : ℕ) (h : IsForest t) where
  abbrev before : World
  before = record { tables = t; saved = none; tick = n }

  single :
      (s : Stmt)
      → fail (Cmd.exec s) before ≡ record { tables = t; saved = none; tick = suc n }
      → succeed (Cmd.exec s) before ≡ record { tables = effect s t; saved = none; tick = suc n }
      → IsForest (effect s t)
      → IsForest (run fails (exec_last s) before).1.tables
        × ((run fails (exec_last s) before).1.saved ≡ none)
  single s f g h' =
      kept fails (length t.groups) fuel (run fails (exec_last s) before)
        (exec_last-Kept fails (length t.groups) fuel s t n h f g h')

  step-IsForest :
      (r : FolderRequest)
      → IsForest (step fails fuel r before).tables × ((step fails fuel r before).saved ≡ none)
  unfolding step succeed fail effect
  step-IsForest (FolderRequest.create u name parent) =
      kept fails (length t.groups) fuel _ (create_asset_group-Kept fails t h fuel u name parent n)
  step-IsForest (FolderRequest.delete u gid) =
      kept fails (length t.groups) fuel _ (delete_asset_group-Kept fails t h fuel u gid n)
  step-IsForest (FolderRequest.remove u gid) =
      kept fails (length t.groups) fuel _
        (delete_asset_group_and_update_size-Kept fails t h fuel u gid n)
  step-IsForest (FolderRequest.share u gid) =
      single (Stmt.share_group u gid) refl refl (update-IsForest _ _ (λ g. refl) (λ g. refl) t h)
  step-IsForest (FolderRequest.visit u gid) =
      single (Stmt.visit_group u gid) refl refl (update-IsForest _ _ (λ g. refl) (λ g. refl) t h)
  step-IsForest (FolderRequest.move u gid target) =
      kept fails (length t.groups) fuel _ (move_asset_group-Kept fails t h fuel u gid target n)
  step-IsForest (FolderRequest.rename u name gid) =
      single (Stmt.rename_group u name gid) refl refl
        (update-IsForest _ _ (λ g. refl) (λ g. refl) t h)

  -- On a table where no folder is inside itself, moving a folder returns, whatever fails: the loop
  -- that climbs from the target is not given up, if it may run more rounds than there are folders.
  pub move_asset_group_returns :
      (u : String) (gid target : ℕ)
      → length t.groups < fuel
      → (a : Result (Unit {0})) × ((run fails (move_asset_group fuel u gid target) before).0
          ≡ returned a)
        × (a ≢ out_of_fuel)
  move_asset_group_returns u gid target l =
      ended fails (length t.groups) fuel _ (move_asset_group-Kept fails t h fuel u gid target n) l

  -- On such a table removing a folder returns as well, whatever fails: the loop that descends into
  -- the folder is not given up, if it may run more rounds than there are folders.
  pub delete_asset_group_and_update_size_returns :
      (u : String) (gid : ℕ)
      → length t.groups < fuel
      → (a : Result (Unit {0})) × ((run fails
            (delete_asset_group_and_update_size fuel u gid)
            before).0
          ≡ returned a)
        × (a ≢ out_of_fuel)
  delete_asset_group_and_update_size_returns u gid l =
      ended fails (length t.groups) fuel _
        (delete_asset_group_and_update_size-Kept fails t h fuel u gid n) l

-- However folders are created, moved, removed, deleted, renamed and shared, one request after the
-- other, whatever statement fails and whatever the fuel, no folder comes to lie inside itself, if
-- that holds at the start and no transaction is open.
pub serve_folders-IsForest :
    (fails : ℕ → Bool) (fuel : ℕ) (requests : List FolderRequest) (w : World)
    → IsForest w.tables
    → w.saved ≡ none
    → IsForest (serve_folders fails fuel requests w).tables
unfolding serve_folders
serve_folders-IsForest fails fuel [] w h s = h
serve_folders-IsForest fails fuel (r ∷ rest) w h s =
    let (h', s') =
      subst
        (λ o.
          IsForest (step fails fuel r (record w { saved = o })).tables
          × ((step fails fuel r (record w { saved = o })).saved ≡ none))
        (sym s) (step-IsForest fails fuel w.tables w.tick h r) in
    serve_folders-IsForest fails fuel rest (step fails fuel r w) h' s'
