-- ===== src/Assets/Files/Requests.antt =====
-- Any requests on files, one after the other.
use titan_explorer.Base.{
  ℕ, ◌≡◌, refl, sym, subst, String, Bool, true, false, none, List, [], ◌∷◌, All, arith,
  if◌then◌else◌, str_eq,
}
use titan_explorer.Base.Program
use titan_explorer.Base.Program.{Outcome, returned, crashed, ret}
use titan_explorer.Assets.Types.{UserAsset, UserSize, Tables}
use titan_explorer.Assets.Prog.{Stmt, Cmd, Prog}
use titan_explorer.Assets.Rows.{find_asset, sum_of, update_assets}
use titan_explorer.Assets.Store.{World, succeed, fail, effect, run}
use titan_explorer.Assets.Files.{
  exec, add_asset_and_update_size, del_asset_and_update_size, update_asset_share_status,
  update_asset_cid, update_asset_name, update_asset_group, update_un_sync_area_ids,
  add_user_asset_map,
}
use titan_explorer.Assets.Files.Sizes.{owned, Sums, IsKeyed, IsBalanced}
use titan_explorer.Assets.Files.Steps.{call-holds, Ends}
use titan_explorer.Assets.Files.Balance.{
  add_asset_and_update_size-IsBalanced, del_asset_and_update_size-IsBalanced,
}

pub data FileRequest : Type 0 where
  add : UserAsset → List String → String → FileRequest
  del : String → String → List String → Bool → FileRequest
  share add_map : String → String → FileRequest
  cid_known : String → String → FileRequest
  rename : String → String → String → FileRequest
  move : String → String → ℕ → FileRequest
  synced : String → String → List String → Bool → FileRequest

unfoldable pub program : FileRequest → Prog Bool
unfolding add_asset_and_update_size del_asset_and_update_size
program (FileRequest.add a area_ids sync_area) = add_asset_and_update_size a area_ids sync_area
program (FileRequest.del hash user_id area_id is_need_del) =
    del_asset_and_update_size hash user_id area_id is_need_del
program (FileRequest.share hash user_id) = update_asset_share_status hash user_id
program (FileRequest.add_map user_id hash) = add_user_asset_map user_id hash
program (FileRequest.cid_known hash cid) = update_asset_cid hash cid
program (FileRequest.rename new_name uid hash) = update_asset_name new_name uid hash
program (FileRequest.move user_id hash group_id) = update_asset_group user_id hash group_id
program (FileRequest.synced uid hash aids is_sync) = update_un_sync_area_ids uid hash aids is_sync

unfoldable pub serve_files : (ℕ → Bool) → List FileRequest → World → World
unfolding Program.run program
serve_files fails [] w = w
serve_files fails (r ∷ rest) w = serve_files fails rest (run fails (program r) w).1

-- A file is added for a user with a name.
abbrev pub IsNamed : FileRequest → Type 0
IsNamed (FileRequest.add a area_ids sync_area) = str_eq a.user_id "" ≡ false
IsNamed _ = Unit

-- What an update of a file's row must leave.
abbrev Keeps : (UserAsset → UserAsset) → Type 0
Keeps f =
    (a : UserAsset)
    → ((f a).user_id ≡ a.user_id) × ((f a).hash ≡ a.hash) × ((f a).total_size ≡ a.total_size)

module _ (p : UserAsset → Bool) (f : UserAsset → UserAsset) (k : Keeps f) where
  sum_of-update :
      (u : String) (t : List UserAsset)
      → sum_of (owned u) (update_assets p f t) ≡ sum_of (owned u) t
  unfolding sum_of update_assets
  sum_of-update u [] = refl
  sum_of-update u (a ∷ t) = ground (arith, k a, sum_of-update u t)

  find_asset-update :
      (h u : String) (t : List UserAsset)
      → find_asset h u t ≡ none
      → find_asset h u (update_assets p f t) ≡ none
  unfolding find_asset update_assets
  find_asset-update h u [] e = refl
  find_asset-update h u (a ∷ t) e = ground (arith, e, k a, find_asset-update h u t)

  keyed_row :
      (b : Bool) (a : UserAsset) (t : List UserAsset)
      → find_asset a.hash a.user_id t ≡ none
      → find_asset (if b then f a else a).hash (if b then f a else a).user_id (update_assets p f t)
        ≡ none
  keyed_row true a t e = rw ((k a).0, (k a).1) (find_asset-update a.hash a.user_id t e)
  keyed_row false a t e = find_asset-update a.hash a.user_id t e

  IsKeyed-update : (t : List UserAsset) → IsKeyed t → IsKeyed (update_assets p f t)
  unfolding update_assets
  IsKeyed-update [] h = tt
  IsKeyed-update (a ∷ t) (e, h) = (keyed_row (p a) a t e, IsKeyed-update t h)

  Sums-update :
      (t : List UserAsset) (us : List UserSize)
      → All (Sums t) us
      → All (Sums (update_assets p f t)) us
  Sums-update t [] h = tt
  Sums-update t (r ∷ us) (e, h) = (rw (sum_of-update r.username t) e, Sums-update t us h)

  update-IsBalanced :
      (t : Tables) → IsBalanced t → IsBalanced (record t { assets = update_assets p f t.assets })
  update-IsBalanced t h = record {
    sums = Sums-update t.assets t.users h.sums;
    keyed = IsKeyed-update t.assets h.keyed;
  }

module _ (fails : ℕ → Bool) (t : Tables) (n : ℕ) (h : IsBalanced t) where
  -- A statement that is not part of a transaction.
  single :
      (s : Stmt)
      → Ends
          (λ (_ : Bool). IsBalanced)
          (returned true, fail (Cmd.exec s) (record { tables = t; saved = none; tick = n }))
      → Ends
          (λ (_ : Bool). IsBalanced)
          (returned true, succeed (Cmd.exec s) (record { tables = t; saved = none; tick = n }))
      → Ends
          (λ (_ : Bool). IsBalanced)
          (run fails (exec s) (record { tables = t; saved = none; tick = n }))
  unfolding Program.run
  single s p q =
      call-holds (Ends (λ (_ : Bool). IsBalanced)) fails (Cmd.exec s) (λ r. ret r)
        (record { tables = t; saved = none; tick = n }) p q

  pub program-IsBalanced :
      (r : FileRequest)
      → IsNamed r
      → Ends
          (λ (_ : Bool). IsBalanced)
          (run fails (program r) (record { tables = t; saved = none; tick = n }))
  unfolding program succeed fail effect
  program-IsBalanced (FileRequest.add a area_ids sync_area) named =
      add_asset_and_update_size-IsBalanced fails t n h a area_ids sync_area named
  program-IsBalanced (FileRequest.del hash user_id area_id is_need_del) _ =
      del_asset_and_update_size-IsBalanced fails t n h hash user_id area_id is_need_del
  program-IsBalanced (FileRequest.share hash user_id) _ =
      single (Stmt.share_asset hash user_id) (h, refl)
        (update-IsBalanced _ _ (λ a. (refl, refl, refl)) t h, refl)
  program-IsBalanced (FileRequest.add_map user_id hash) _ =
      single (Stmt.insert_map user_id hash) (h, refl)
        (record { sums = h.sums; keyed = h.keyed }, refl)
  program-IsBalanced (FileRequest.cid_known hash cid) _ =
      single (Stmt.set_cid hash cid) (h, refl)
        (update-IsBalanced _ _ (λ a. (refl, refl, refl)) t h, refl)
  program-IsBalanced (FileRequest.rename new_name uid hash) _ =
      single (Stmt.rename_asset new_name uid hash) (h, refl)
        (update-IsBalanced _ _ (λ a. (refl, refl, refl)) t h, refl)
  program-IsBalanced (FileRequest.move user_id hash group_id) _ =
      single (Stmt.set_asset_group user_id hash group_id) (h, refl)
        (update-IsBalanced _ _ (λ a. (refl, refl, refl)) t h, refl)
  program-IsBalanced (FileRequest.synced uid hash aids is_sync) _ =
      single (Stmt.update_areas hash uid aids is_sync) (h, refl)
        (record { sums = h.sums; keyed = h.keyed }, refl)

ends :
    (r : Outcome Bool × World)
    → Ends (λ (_ : Bool). IsBalanced) r
    → IsBalanced r.1.tables × (r.1.saved ≡ none)
ends (returned a, w) h = h
ends (crashed, w) h = absurd h

-- However files are added, deleted, renamed, moved to a folder and shared, one request after the
-- other and whatever statement fails, the used size of each user stays the sum of the sizes of
-- the user's files, and a user has a hash at most once, if that holds at the start, where no
-- transaction is open and every file that is added is of a user whose id is not empty.
pub serve_files-IsBalanced :
    (fails : ℕ → Bool) (requests : List FileRequest) (w : World)
    → IsBalanced w.tables
    → w.saved ≡ none
    → All IsNamed requests
    → IsBalanced (serve_files fails requests w).tables
unfolding serve_files
serve_files-IsBalanced fails [] w h s named = h
serve_files-IsBalanced fails (r ∷ rest) w h s (named, others) =
    let (h', s') = ends (run fails (program r) w) (
      subst (λ o. Ends (λ (_ : Bool). IsBalanced) (run fails (program r) (record w { saved = o })))
        (sym s) (program-IsBalanced fails w.tables w.tick h r named)) in
    serve_files-IsBalanced fails rest (run fails (program r) w).1 h' s' others
