-- ===== src/Assets/Files/Balance.antt =====
-- The used size of a user and the files of the user: what adding and deleting a file leave.
use titan_explorer.Base.{
  ℕ, suc, ◌≡◌, refl, String, Bool, true, false, none, some, List, [], ◌∷◌, ◌++◌, if◌then◌else◌,
  str_eq, Option-cases, inl, inr, if-holds,
}
use titan_explorer.Base.Program
use titan_explorer.Base.Program.{Program, Outcome, returned, crashed, ret, ask, ◌>>=◌}
use titan_explorer.Base.Sql.{scanned}
use titan_explorer.Assets.Types.{UserAsset, UserAssetArea, Tables}
use titan_explorer.Assets.Prog.{Stmt, Cmd, Prog}
use titan_explorer.Assets.Rows.{find_asset, scan_of}
use titan_explorer.Assets.Store.{World, refused, succeed, fail, failed, answer, effect, run}
use titan_explorer.Assets.Files.{
  exec, or_error, add_areas, add_read, add_asset_and_update_size, del_read,
  del_asset_and_update_size, is_empty,
}
use titan_explorer.Assets.Files.Sizes.{
  IsBalanced, IsKeyed-append, IsKeyed-delete, Sums-add, Sums-delete, find_asset-owned,
}
use titan_explorer.Assets.Files.Steps.{
  call-holds, Leaves, Ends, in_tx-Ends, commit-Leaves, stmt-Leaves,
}

module _ (fails : ℕ → Bool) (t : Tables) (h : IsBalanced t) where
  abbrev Good : Outcome Bool × World → Type 0
  Good = Leaves (λ (_ : Bool). IsBalanced)

  abbrev open_at : Tables → ℕ → World
  open_at u n = record { tables = u; saved = some t; tick = n }

  commit-Good :
      (u : Tables) (n : ℕ) → IsBalanced u → Good (run fails (exec Stmt.commit) (open_at u n))
  commit-Good = commit-Leaves (λ _. IsBalanced) fails t h

  then_Good :
      (s : Stmt) (rest : Prog Bool) (u : Tables) (n : ℕ)
      → fail (Cmd.exec s) (open_at u n) ≡ open_at u (suc n)
      → succeed (Cmd.exec s) (open_at u n) ≡ open_at (effect s u) (suc n)
      → (refused s u ≡ false → Good (run fails rest (open_at (effect s u) (suc n))))
      → Good (run fails (or_error s rest) (open_at u n))
  then_Good = stmt-Leaves (λ _. IsBalanced) fails t h

  -- A new file: its row is in, its size is not yet counted.
  add_new :
      (a : UserAsset) (area_ids : List String) (sync_area : String) (n : ℕ)
      → find_asset a.hash a.user_id t.assets ≡ none
      → Good (
          run fails
            (add_areas a area_ids sync_area true)
            (open_at (record t { assets = t.assets ++ (a ∷ []) }) n))
  unfolding add_areas succeed fail effect
  add_new a area_ids sync_area n e =
      then_Good (Stmt.upsert_areas a.hash a.user_id (sync_area ∷ [])) _ _ _ refl refl λ _.
        then_Good (Stmt.insert_areas a.hash a.user_id area_ids) _ _ _ refl refl λ _.
          then_Good (Stmt.insert_map a.user_id a.hash) _ _ _ refl refl λ _.
            then_Good (Stmt.add_used a.user_id a.total_size) _ _ _ refl refl λ _.
              commit-Good _ _ (record {
                sums = Sums-add a t.assets t.users h.sums;
                keyed = IsKeyed-append a t.assets h.keyed e;
              })

  add_old :
      (a : UserAsset) (area_ids : List String) (sync_area : String) (n : ℕ)
      → Good (run fails (add_areas a area_ids sync_area false) (open_at t n))
  unfolding add_areas succeed fail effect
  add_old a area_ids sync_area n =
      then_Good (Stmt.upsert_areas a.hash a.user_id (sync_area ∷ [])) _ _ _ refl refl λ _.
        then_Good (Stmt.insert_areas a.hash a.user_id area_ids) _ _ _ refl refl λ _.
          then_Good (Stmt.insert_map a.user_id a.hash) _ _ _ refl refl
            λ _. commit-Good _ _ (record { sums = h.sums; keyed = h.keyed })

  -- After the read of the file's row, whatever it gave.
  add_read-Good :
      (a : UserAsset) (area_ids : List String) (sync_area : String) (n : ℕ)
      → str_eq a.user_id "" ≡ false
      → Good (
          run fails
            (add_read a area_ids sync_area (scan_of (find_asset a.hash a.user_id t.assets)))
            (open_at t n))
  unfolding add_read succeed fail effect refused
  add_read-Good a area_ids sync_area n named =
      elim (Option-cases (find_asset a.hash a.user_id t.assets)) [
        | inl e ↦ rw e (
            then_Good (Stmt.insert_asset a) _ t n refl refl
              (λ _. rw e (add_new a area_ids sync_area (suc n) e)))
        | inr (b, e) ↦ rw (e, owner b e) (add_old a area_ids sync_area n)
      ]
    where
      owner :
          (b : UserAsset)
          → find_asset a.hash a.user_id t.assets ≡ some b
          → str_eq b.user_id "" ≡ false
      owner b e = rw (find_asset-owned a.hash a.user_id b t.assets e) named

  add_body :
      (a : UserAsset) (area_ids : List String) (sync_area : String) (n : ℕ)
      → str_eq a.user_id "" ≡ false
      → Good (
          run fails
            (do ua ← ask (Cmd.select_asset a.hash a.user_id); add_read a area_ids sync_area ua)
            (open_at t n))
  unfolding Program.run succeed fail failed answer add_read
  add_body a area_ids sync_area n named =
      call-holds Good fails (Cmd.select_asset a.hash a.user_id) (add_read a area_ids sync_area)
        (open_at t n) h (add_read-Good a area_ids sync_area (suc n) named)

  -- A file that was found: its row, its size and what hangs on it go.
  del_found :
      (hash user_id : String) (b : UserAsset) (l : List UserAssetArea) (n : ℕ)
      → find_asset hash user_id t.assets ≡ some b
      → Good (
          run fails
            (del_read hash user_id (scanned (record { cid = b.cid; total_size = b.total_size })))
            (open_at (record t { areas = l }) n))
  unfolding del_read succeed fail effect
  del_found hash user_id b l n e = then_Good (Stmt.delete_asset hash user_id) _ _ n refl refl λ _.
      then_Good (Stmt.sub_used_floor user_id b.total_size) _ _ _ refl refl λ _.
        then_Good (Stmt.delete_links user_id b.cid) _ _ _ refl refl λ _.
          then_Good (Stmt.delete_visits hash user_id) _ _ _ refl refl λ _. commit-Good _ _ (record {
            sums = Sums-delete hash user_id b t.assets t.users h.keyed e h.sums;
            keyed = IsKeyed-delete hash user_id t.assets h.keyed;
          })

  del_size :
      (hash user_id : String) (l : List UserAssetArea) (n : ℕ)
      → Good (
          run fails
            (do sa ← ask (Cmd.select_size hash user_id); del_read hash user_id sa)
            (open_at (record t { areas = l }) n))
  unfolding Program.run succeed fail failed answer del_read
  del_size hash user_id l n =
      call-holds Good fails (Cmd.select_size hash user_id) (del_read hash user_id)
        (open_at (record t { areas = l }) n) h
        (elim (Option-cases (find_asset hash user_id t.assets)) [
          | inl e ↦ rw e h
          | inr (b, e) ↦ rw e (del_found hash user_id b l (suc n) e)
        ])

  del_rest :
      (hash user_id : String) (l : List UserAssetArea) (n : ℕ) (is_need_del : Bool)
      → Good (
          run fails
            (if is_need_del
              then (do sa ← ask (Cmd.select_size hash user_id); del_read hash user_id sa)
              else exec Stmt.commit)
            (open_at (record t { areas = l }) n))
  del_rest hash user_id l n true = del_size hash user_id l n
  del_rest hash user_id l n false =
      commit-Good (record t { areas = l }) n (record { sums = h.sums; keyed = h.keyed })

module _ (fails : ℕ → Bool) (t : Tables) (n : ℕ) (h : IsBalanced t) where
  abbrev before : World
  before = record { tables = t; saved = none; tick = n }

  pub add_asset_and_update_size-IsBalanced :
      (a : UserAsset) (area_ids : List String) (sync_area : String)
      → str_eq a.user_id "" ≡ false
      → Ends
          (λ (_ : Bool). IsBalanced)
          (run fails (add_asset_and_update_size a area_ids sync_area) before)
  unfolding add_asset_and_update_size Program.run
  add_asset_and_update_size-IsBalanced a area_ids sync_area named =
      in_tx-Ends (λ _. IsBalanced) fails t h _ n
        (if-holds
          (λ (p : Prog Bool).
            Leaves (λ (_ : Bool). IsBalanced) (run fails p (open_at fails t h t (suc n))))
          (is_empty area_ids) (ret true) _ (λ _. h)
          (λ _. add_body fails t h a area_ids sync_area (suc n) named))

  pub del_asset_and_update_size-IsBalanced :
      (hash user_id : String) (area_id : List String) (is_need_del : Bool)
      → Ends
          (λ (_ : Bool). IsBalanced)
          (run fails (del_asset_and_update_size hash user_id area_id is_need_del) before)
  unfolding del_asset_and_update_size succeed fail effect
  del_asset_and_update_size-IsBalanced hash user_id area_id is_need_del =
      in_tx-Ends (λ _. IsBalanced) fails t h _ n
        (then_Good fails t h (Stmt.delete_areas hash user_id area_id) _ t (suc n) refl refl λ _.
          del_rest fails t h hash user_id (effect (Stmt.delete_areas hash user_id area_id) t).areas
            (suc (suc n)) is_need_del)
