-- ===== src/Assets/Tests.antt =====
-- Files and folders at concrete inputs: the theorems at values that meet their hypotheses.
use titan_explorer.Base.{ℕ, zero, suc, ◌≡◌, ◌≢◌, refl, Bool, true, List, [], ◌∷◌, arith, ◌==◌}
use titan_explorer.Base.Program.{returned}
use titan_explorer.Assets.Samples.{file, folder, sample, at_start}
use titan_explorer.Assets.Rows.{find_asset, find_group, find_own_group, sum_of}
use titan_explorer.Assets.Store.{World, run}
use titan_explorer.Assets.Files.Sizes.{IsBalanced}
use titan_explorer.Assets.Files.Requests.{FileRequest, program, serve_files, serve_files-IsBalanced}
use titan_explorer.Assets.Files.Steps.{Ends}
use titan_explorer.Assets.Files.Sizing.{view}
use titan_explorer.Assets.Files.Refine.{Does, program-Does}
use titan_explorer.Assets.Folders.{
  Result, ok, out_of_fuel, move_asset_group, delete_asset_group_and_update_size,
}
use titan_explorer.Assets.Folders.Forest.{Rooted, at_root, above, missing'}
use titan_explorer.Assets.Folders.Shape.{IsForest}
use titan_explorer.Assets.Folders.Ending.{
  FolderRequest, serve_folders, serve_folders-IsForest, move_asset_group_returns,
  delete_asset_group_and_update_size_returns,
}
use titan_explorer.Assets.Folders.Race.{AreRoots, cross, none_fails, moves_at_once_hang}
use titan_explorer.Assets.Jobs.{delete_asset_group_job}
use titan_explorer.Assets.Jobs.Ending.{
  delete_asset_group_job_removes_nothing, delete_asset_group_job_returns,
  delete_asset_group_job_loses_levels, only_fails,
}

sample-IsBalanced : IsBalanced sample
unfolding sum_of find_asset
sample-IsBalanced = record { sums = (refl, tt); keyed = (refl, (refl, tt)) }

rooted_1 : Rooted sample.groups 1
unfolding find_group
rooted_1 = above (folder 1 0) (omega arith) refl (at_root refl)

rooted_3 : Rooted sample.groups 3
unfolding find_group
rooted_3 = above (folder 3 0) (omega arith) refl (at_root refl)

rooted : (id : ℕ) → Rooted sample.groups id
unfolding find_group
rooted zero = at_root refl
rooted (suc zero) = rooted_1
rooted (suc (suc zero)) = above (folder 2 1) (omega arith) refl rooted_1
rooted (suc (suc (suc zero))) = rooted_3
rooted (suc (suc (suc (suc zero)))) = above (folder 4 3) (omega arith) refl rooted_3
rooted (suc (suc (suc (suc (suc n))))) = missing' (suc (suc (suc (suc (suc n))))) (ground arith)

sample-IsForest : IsForest sample
unfolding find_group
sample-IsForest = record {
  rooted = rooted;
  keyed = (refl, (refl, (refl, (refl, tt))));
  counted = omega arith;
  first = omega arith;
}

-- Every third call fails.
abbrev some_fail : ℕ → Bool
some_fail n = n == 3

abbrev file_requests : List FileRequest
file_requests =
    FileRequest.del "h" "u" ("a" ∷ []) true ∷ FileRequest.add (file "m" 5 0) ("a" ∷ []) "a" ∷ []

serve_files-IsBalanced_example : IsBalanced (serve_files some_fail file_requests at_start).tables
serve_files-IsBalanced_example =
    serve_files-IsBalanced some_fail file_requests at_start sample-IsBalanced refl (tt, (refl, tt))

abbrev folder_requests : List FolderRequest
folder_requests = FolderRequest.move "u" 1 4 ∷ FolderRequest.create "u" "n" 2 ∷ []

serve_folders-IsForest_example :
    IsForest (serve_folders none_fails 5 folder_requests at_start).tables
serve_folders-IsForest_example =
    serve_folders-IsForest none_fails 5 folder_requests at_start sample-IsForest refl

move_asset_group_returns_example :
    (a : Result (Unit {0})) × ((run some_fail (move_asset_group 5 "u" 1 4) at_start).0 ≡ returned a)
    × (a ≢ out_of_fuel)
move_asset_group_returns_example =
    move_asset_group_returns some_fail 5 sample 0 sample-IsForest "u" 1 4 (omega arith)

delete_asset_group_and_update_size_returns_example :
    (a : Result (Unit {0})) × ((run some_fail
        (delete_asset_group_and_update_size 5 "u" 1)
        at_start).0
      ≡ returned a)
    × (a ≢ out_of_fuel)
delete_asset_group_and_update_size_returns_example =
    delete_asset_group_and_update_size_returns some_fail 5 sample 0 sample-IsForest "u" 1
      (omega arith)

roots : AreRoots "u" 1 3 at_start
unfolding find_group find_own_group
roots = record {
  differ = omega arith;
  a_pos = omega arith;
  b_pos = omega arith;
  own_a = refl;
  own_b = refl;
  row_a = folder 1 0;
  row_b = folder 3 0;
  found_a = refl;
  found_b = refl;
  user_a = refl;
  user_b = refl;
  id_a = refl;
  id_b = refl;
  parent_a = refl;
  parent_b = refl;
  closed = refl;
}

moves_at_once_hang_example :
    (run none_fails (move_asset_group 1000 "u" 2 1) (cross "u" 1 3 5 at_start)).0
    ≡ returned out_of_fuel
moves_at_once_hang_example =
    moves_at_once_hang "u" 1 3 4 at_start roots 2 1000 (omega arith) (omega arith) (omega arith)

delete_asset_group_job_removes_nothing_example :
    (run none_fails (delete_asset_group_job 5 "u" (1 ∷ [])) at_start).1.tables.removals ≡ []
delete_asset_group_job_removes_nothing_example =
    delete_asset_group_job_removes_nothing none_fails 5 "u" (1 ∷ []) sample 0

delete_asset_group_job_returns_example :
    (run some_fail (delete_asset_group_job 5 "u" (1 ∷ [])) at_start).0 ≡ returned (ok tt)
delete_asset_group_job_returns_example =
    delete_asset_group_job_returns some_fail 5 "u" (1 ∷ []) sample 0 sample-IsForest (omega arith)

delete_asset_group_job_loses_levels_example :
    ((run (only_fails 7) (delete_asset_group_job 5 "u" (1 ∷ [])) at_start).1.tables.tasks
      ≡ record { user_id = "u"; group_id = [] } ∷ [])
    × ((fails : ℕ → Bool) (fuel' : ℕ) (w : World)
        → run fails (delete_asset_group_job fuel' "u" []) w ≡ (returned (ok tt), w))
delete_asset_group_job_loses_levels_example = delete_asset_group_job_loses_levels 4 "u" 1 [] sample

program-Does_example :
    Ends
      (Does (FileRequest.del "h" "u" ("a" ∷ []) true) (view sample.assets))
      (run some_fail (program (FileRequest.del "h" "u" ("a" ∷ []) true)) at_start)
program-Does_example = program-Does some_fail sample (FileRequest.del "h" "u" ("a" ∷ []) true) 0
