-- ===== src/Assets/Files/Refine.antt =====
-- The requests on files do what is intended, or nothing.
use titan_explorer.Base.{
  ℕ, suc, ◌≡◌, refl, String, Bool, true, false, none, some, List, [], ◌∷◌, ◌++◌, arith,
  if◌then◌else◌, if-holds, str_eq, Option-cases, inl, inr,
}
use titan_explorer.Base.Program
use titan_explorer.Base.Program.{Program, Outcome, returned, crashed, ret, ask, ◌>>=◌}
use titan_explorer.Assets.Types.{UserAsset, UserAssetArea, Tables}
use titan_explorer.Assets.Prog.{Stmt, Cmd, Prog}
use titan_explorer.Assets.Rows.{find_asset, scan_of, size_of}
use titan_explorer.Assets.Store.{World, refused, succeed, fail, failed, answer, effect, run}
use titan_explorer.Assets.Files.{
  exec, or_error, add_areas, add_read, add_asset_and_update_size, del_read,
  del_asset_and_update_size, is_empty,
}
use titan_explorer.Assets.Files.Steps.{
  call-holds, Leaves, Ends, in_tx-Ends, commit-Leaves, stmt-Leaves,
}
use titan_explorer.Assets.Files.Requests.{FileRequest, program}
use titan_explorer.Assets.Files.Sizing.{View, view, intended, view-append, view-delete, view-update}

abbrev Same : View → View → Type 0
Same v v' = (h u : String) → v' h u ≡ v h u

-- With an error nothing has changed; without one the request is done.
abbrev pub Does : FileRequest → View → Bool → Tables → Type 0
Does r v true t = (h u : String) → view t.assets h u ≡ v h u
Does r v false t = (h u : String) → view t.assets h u ≡ intended r v h u

module _ (fails : ℕ → Bool) (t : Tables) where
  abbrev open_at : Tables → ℕ → World
  open_at u n = record { tables = u; saved = some t; tick = n }

  module _ (r : FileRequest) where
    abbrev Good : Outcome Bool × World → Type 0
    Good = Leaves (Does r (view t.assets))

    unchanged : Does r (view t.assets) true t
    unchanged h u = refl

    commit-Does :
        (v : Tables) (n : ℕ)
        → Does r (view t.assets) false v
        → Good (run fails (exec Stmt.commit) (open_at v n))
    commit-Does = commit-Leaves (Does r (view t.assets)) fails t unchanged

    then-Does :
        (s : Stmt) (rest : Prog Bool) (v : Tables) (n : ℕ)
        → fail (Cmd.exec s) (open_at v n) ≡ open_at v (suc n)
        → succeed (Cmd.exec s) (open_at v n) ≡ open_at (effect s v) (suc n)
        → (refused s v ≡ false → Good (run fails rest (open_at (effect s v) (suc n))))
        → Good (run fails (or_error s rest) (open_at v n))
    then-Does = stmt-Leaves (Does r (view t.assets)) fails t unchanged

  module _ (a : UserAsset) (area_ids : List String) (sync_area : String) where
    abbrev add : FileRequest
    add = FileRequest.add a area_ids sync_area

    -- The rows beside the file's own, from where its row is as intended.
    add_areas-Does :
        (v : Tables) (n : ℕ) (counts : Bool)
        → Does add (view t.assets) false v
        → Good add (run fails (add_areas a area_ids sync_area counts) (open_at v n))
    unfolding add_areas succeed fail effect
    add_areas-Does v n true d =
        then-Does add (Stmt.upsert_areas a.hash a.user_id (sync_area ∷ [])) _ _ _ refl refl λ _.
          then-Does add (Stmt.insert_areas a.hash a.user_id area_ids) _ _ _ refl refl λ _.
            then-Does add (Stmt.insert_map a.user_id a.hash) _ _ _ refl refl λ _.
              then-Does add (Stmt.add_used a.user_id a.total_size) _ _ _ refl refl
                λ _. commit-Does add _ _ d
    add_areas-Does v n false d =
        then-Does add (Stmt.upsert_areas a.hash a.user_id (sync_area ∷ [])) _ _ _ refl refl λ _.
          then-Does add (Stmt.insert_areas a.hash a.user_id area_ids) _ _ _ refl refl λ _.
            then-Does add (Stmt.insert_map a.user_id a.hash) _ _ _ refl refl
              λ _. commit-Does add _ _ d

    add_read-Does :
        (n : ℕ)
        → Good add (
            run fails
              (add_read a area_ids sync_area (scan_of (find_asset a.hash a.user_id t.assets)))
              (open_at t n))
    unfolding add_read succeed fail effect refused
    add_read-Does n = elim (Option-cases (find_asset a.hash a.user_id t.assets)) [
      | inl e ↦ rw e (
          then-Does add (Stmt.insert_asset a) _ t n refl refl (λ _. rw e (
            add_areas-Does (record t { assets = t.assets ++ (a ∷ []) }) (suc n) true
              (λ h u. view-append a t.assets h u e))))
      | inr (b, e) ↦ rw e (add_areas-Does t n (str_eq b.user_id "") (λ h u. ground (arith, e)))
    ]

    add-Does :
        (n : ℕ)
        → Ends (Does add (view t.assets)) (
            run fails
              (add_asset_and_update_size a area_ids sync_area)
              (record { tables = t; saved = none; tick = n }))
    unfolding add_asset_and_update_size Program.run succeed fail failed answer add_read
    add-Does n = in_tx-Ends (Does add (view t.assets)) fails t (unchanged add) _ n (
        if-holds (λ (p : Prog Bool). Good add (run fails p (open_at t (suc n)))) (is_empty area_ids)
          (ret true) _ (λ _. unchanged add)
          (λ _.
            call-holds (Good add) fails (Cmd.select_asset a.hash a.user_id)
              (add_read a area_ids sync_area) (open_at t (suc n)) (unchanged add)
              (add_read-Does (suc (suc n)))))

  module _ (hash user_id : String) (area_id : List String) where
    abbrev del : Bool → FileRequest
    del = FileRequest.del hash user_id area_id

    del_read-Does :
        (l : List UserAssetArea) (n : ℕ)
        → Good (del true) (
            run fails
              (del_read hash user_id (size_of (find_asset hash user_id t.assets)))
              (open_at (record t { areas = l }) n))
    unfolding Program.run del_read succeed fail effect
    del_read-Does l n = elim (Option-cases (find_asset hash user_id t.assets)) [
      | inl e ↦ rw e (unchanged (del true))
      | inr (b, e) ↦ rw e (
          then-Does (del true) (Stmt.delete_asset hash user_id) _ _ n refl refl λ _.
            then-Does (del true) (Stmt.sub_used_floor user_id b.total_size) _ _ _ refl refl λ _.
              then-Does (del true) (Stmt.delete_links user_id b.cid) _ _ _ refl refl λ _.
                then-Does (del true) (Stmt.delete_visits hash user_id) _ _ _ refl refl
                  λ _. commit-Does (del true) _ _ (view-delete hash user_id t.assets))
    ]

    rest_of : Bool → Prog Bool
    rest_of is_need_del =
        if is_need_del
        then (do sa ← ask (Cmd.select_size hash user_id); del_read hash user_id sa)
        else exec Stmt.commit

    rest-Does :
        (l : List UserAssetArea) (n : ℕ) (b : Bool)
        → Good (del b) (run fails (rest_of b) (open_at (record t { areas = l }) n))
    unfolding Program.run rest_of succeed fail failed answer del_read
    rest-Does l n true =
        call-holds (Good (del true)) fails (Cmd.select_size hash user_id) (del_read hash user_id)
          (open_at (record t { areas = l }) n) (unchanged (del true)) (del_read-Does l (suc n))
    rest-Does l n false = commit-Does (del false) _ n (λ h u. refl)

    del-Does :
        (b : Bool) (n : ℕ)
        → Ends (Does (del b) (view t.assets)) (
            run fails
              (del_asset_and_update_size hash user_id area_id b)
              (record { tables = t; saved = none; tick = n }))
    unfolding del_asset_and_update_size rest_of succeed fail effect
    del-Does b n = in_tx-Ends (Does (del b) (view t.assets)) fails t (unchanged (del b)) _ n (
        then-Does (del b) (Stmt.delete_areas hash user_id area_id) (rest_of b) t (suc n) refl refl
          (λ _.
            rest-Does (effect (Stmt.delete_areas hash user_id area_id) t).areas (suc (suc n)) b))

  -- A statement that is not part of a transaction and leaves the sizes.
  single :
      (r : FileRequest) (s : Stmt) (n : ℕ)
      → fail (Cmd.exec s) (record { tables = t; saved = none; tick = n })
        ≡ record { tables = t; saved = none; tick = suc n }
      → succeed (Cmd.exec s) (record { tables = t; saved = none; tick = n })
        ≡ record { tables = effect s t; saved = none; tick = suc n }
      → refused s t ≡ false
      → ((h u : String) → view (effect s t).assets h u ≡ intended r (view t.assets) h u)
      → Ends
          (Does r (view t.assets))
          (run fails (exec s) (record { tables = t; saved = none; tick = n }))
  unfolding Program.run failed answer
  single r s n f g e d =
      call-holds (Ends (Does r (view t.assets))) fails (Cmd.exec s) (λ err. ret err)
        (record { tables = t; saved = none; tick = n }) (rw f (unchanged r, refl))
        (rw (g, e) (d, refl))

  -- Any request on files, whatever statement fails: where it answers an error, the view of the files
  -- by user and hash, with their sizes, is what it was; where it answers none, the view is changed as
  -- the request intends. It ends, and leaves no transaction open.
  pub program-Does :
      (r : FileRequest) (n : ℕ)
      → Ends
          (Does r (view t.assets))
          (run fails (program r) (record { tables = t; saved = none; tick = n }))
  unfolding program succeed fail effect refused
  program-Does (FileRequest.add a area_ids sync_area) n = add-Does a area_ids sync_area n
  program-Does (FileRequest.del hash user_id area_id is_need_del) n =
      del-Does hash user_id area_id is_need_del n
  program-Does (FileRequest.share hash user_id) n =
      single (FileRequest.share hash user_id) (Stmt.share_asset hash user_id) n refl refl refl
        (λ h u. view-update _ _ t.assets h u (λ a. (refl, refl, refl)))
  program-Does (FileRequest.add_map user_id hash) n =
      single (FileRequest.add_map user_id hash) (Stmt.insert_map user_id hash) n refl refl refl
        (λ h u. refl)
  program-Does (FileRequest.cid_known hash cid) n =
      single (FileRequest.cid_known hash cid) (Stmt.set_cid hash cid) n refl refl refl
        (λ h u. view-update _ _ t.assets h u (λ a. (refl, refl, refl)))
  program-Does (FileRequest.rename new_name uid hash) n =
      single (FileRequest.rename new_name uid hash) (Stmt.rename_asset new_name uid hash) n refl
        refl refl (λ h u. view-update _ _ t.assets h u (λ a. (refl, refl, refl)))
  program-Does (FileRequest.move user_id hash group_id) n =
      single (FileRequest.move user_id hash group_id) (Stmt.set_asset_group user_id hash group_id) n
        refl refl refl (λ h u. view-update _ _ t.assets h u (λ a. (refl, refl, refl)))
  program-Does (FileRequest.synced uid hash aids is_sync) n =
      single (FileRequest.synced uid hash aids is_sync) (Stmt.update_areas hash uid aids is_sync) n
        refl refl refl (λ h u. refl)
