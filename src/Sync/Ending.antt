-- ===== src/Sync/Ending.antt =====
-- A round in which nothing fails.
use titan_explorer.Base.{◌∙◌, ◌≡◌, refl, true, false, List, [], ◌∷◌, keep, map, All, arith, str_eq}
use titan_explorer.Queue.Client.{Payload}
use titan_explorer.Assets.Types.{UserAssetArea}
use titan_explorer.Sync.Areas.{Schedulers, synced}
use titan_explorer.Sync.Rows.{unsynced}
use titan_explorer.Sync.Round.{Fails, is_complete, sync_user_scheduler}
use titan_explorer.Sync.Marks.{marked, goes_through, sync_user_scheduler_marks}

-- The file's own area answers, its record says that the upload is complete, the token is given, and
-- the statements and the payload's deletion succeed.
pub record Succeeds (s : Schedulers) (f : Fails) (v : Payload) : Type 0 where
  pub client : s.get_scheduler_client v.area_id ≡ true
  pub complete : is_complete (s.get_asset_record v.area_id v.cid) ≡ true
  pub token : s.generate_token_for_download_sources v.cid ≡ true
  pub reads : f.on_read ≡ false
  pub updates : f.on_update ≡ false
  pub deletes : f.on_delete ≡ false

none_unsynced :
    (s : Schedulers) (v : Payload) (t : List UserAssetArea)
    → str_eq v.user_id "" ≡ false
    → All (λ r. unsynced v.user_id v.hash r ≡ true → synced s v.cid v.owner r.area_id ≡ true) t
    → keep (unsynced v.user_id v.hash) (map (marked s v) t) ≡ []
none_unsynced s v [] e a = refl
none_unsynced s v (r ∷ t) e (h, a) = ground (arith, e, h, none_unsynced s v t e a)

module _ (s : Schedulers) (f : Fails) (v : Payload) (t : List UserAssetArea) where
  goes_on : Succeeds s f v → goes_through s f v t ≡ true
  goes_on p = ground (arith, p.client, p.complete, p.token, p.reads, p.updates)

  -- Where nothing fails and each area of a user's file that is not synchronised has the file, the
  -- round leaves no area of the file unsynchronised and takes the payload off the queue.
  pub sync_user_scheduler_completes :
      str_eq v.user_id "" ≡ false
      → Succeeds s f v
      → All (λ r. unsynced v.user_id v.hash r ≡ true → synced s v.cid v.owner r.area_id ≡ true) t
      → (keep (unsynced v.user_id v.hash) (sync_user_scheduler s f v t).areas ≡ [])
        × ((sync_user_scheduler s f v t).done ≡ true)
  sync_user_scheduler_completes e p a =
      let (areas, done) = sync_user_scheduler_marks s f v t e in
      (rw (areas, goes_on p) (none_unsynced s v t e a), done ∙ rw (goes_on p, p.deletes) refl)
