-- ===== src/Sync/Marks.antt =====
-- What a round does to the rows of a file's areas.
use titan_explorer.Base.{
  ◌≡◌, refl, ◌∙◌, String, Bool, true, false, not, ◌&&◌, ◌||◌, none, some, List, [], ◌∷◌, keep, map,
  All, arith, if◌then◌else◌, str_eq, eq_iff,
}
use titan_explorer.Queue.Client.{Payload}
use titan_explorer.Assets.Types.{UserAssetArea}
use titan_explorer.Assets.Rows.{among, of_areas, set_sync}
use titan_explorer.Sync.Areas.{
  Schedulers, sync_shedulers, sync_each, sync_each-keep, synced, lacking,
}
use titan_explorer.Assets.Files.{is_empty}
use titan_explorer.Sync.Rows.{distinct, unsynced, get_un_sync_area_ids}
use titan_explorer.Sync.Round.{Fails, update_then, is_complete, sync_user_scheduler}

-- The row of a file that an area has is synchronised.
abbrev pub marked : Schedulers → Payload → UserAssetArea → UserAssetArea
marked s v r = record r {
  is_sync =
      r.is_sync
      || (str_eq r.hash v.hash && str_eq r.user_id v.user_id && synced s v.cid v.owner r.area_id);
}

among-keep :
    (p : String → Bool) (x : String) (l : List String) → among x (keep p l) ≡ (p x && among x l)
among-keep p x [] = ground arith
among-keep p x (a ∷ l) = ground (arith, among-keep p x l, eq_iff a x)

among-distinct : (x : String) (l : List String) → among x (distinct l) ≡ among x l
unfolding distinct
among-distinct x [] = refl
among-distinct x (a ∷ l) = ground (
  arith,
  among-keep (λ b. not (str_eq b a)) x (distinct l),
  among-distinct x l,
  eq_iff a x,
  eq_iff x a,
)

set_sync-map :
    (p : UserAssetArea → Bool) (g : UserAssetArea → UserAssetArea) (t : List UserAssetArea)
    → All (λ r. (if p r then record r { is_sync = true } else r) ≡ g r) t
    → set_sync p true t ≡ map g t
unfolding set_sync
set_sync-map p g [] h = refl
set_sync-map p g (r ∷ t) (e, h) = rw (e, set_sync-map p g t h) refl

-- What holds of the area of each row that is kept.
kept_areas :
    (q : UserAssetArea → Bool) (g : String → Bool) (t : List UserAssetArea)
    → ((x : String) → among x (map (λ r. r.area_id) (keep q t)) ≡ true → g x ≡ true)
    → All (λ r. q r ≡ true → g r.area_id ≡ true) t
kept_areas q g [] h = tt
kept_areas q g (r ∷ t) h = (
  (λ e. h r.area_id (ground (arith, e, eq_iff r.area_id r.area_id))),
  kept_areas q g t (λ x e. h x (ground (arith, e))),
)

All-mono :
    {P Q : UserAssetArea → Type 0}
    → ((r : UserAssetArea) → P r → Q r)
    → (t : List UserAssetArea) → All P t
    → All Q t
All-mono h [] a = tt
All-mono h (r ∷ t) (p, a) = (h r p, All-mono h t a)

module _ (s : Schedulers) (f : Fails) (v : Payload) (t : List UserAssetArea) where
  -- The areas that have the file, of those that are not synchronised.
  abbrev found_areas : List String
  found_areas = keep (synced s v.cid v.owner) (get_un_sync_area_ids v.user_id v.hash t)

  found_areas-marked :
      str_eq v.user_id "" ≡ false
      → set_sync (of_areas v.hash v.user_id found_areas) true t ≡ map (marked s v) t
  unfolding get_un_sync_area_ids
  found_areas-marked e = set_sync-map (of_areas v.hash v.user_id found_areas) (marked s v) t (
      All-mono
        (λ r h. ground (
          arith,
          e,
          h,
          among-keep (synced s v.cid v.owner) r.area_id (get_un_sync_area_ids v.user_id v.hash t),
        ))
        t
        (kept_areas (unsynced v.user_id v.hash)
          (λ x. among x (get_un_sync_area_ids v.user_id v.hash t)) t
          (λ x h.
            among-distinct x (map (λ r. r.area_id) (keep (unsynced v.user_id v.hash) t)) ∙ h)))

  sync_shedulers_cases :
      (l : List String)
      → sync_shedulers s v.cid v.owner l ≡ (
          if is_empty l || s.generate_token_for_download_sources v.cid
          then some (keep (synced s v.cid v.owner) l, keep (lacking s v.cid v.owner) l)
          else none)
  unfolding sync_shedulers sync_each
  sync_shedulers_cases [] = refl
  sync_shedulers_cases (area ∷ l) = ground (arith, sync_each-keep s v.cid v.owner (area ∷ l))

  -- The file's own area answers that the upload is complete, the statements succeed, and the token is
  -- given if an area needs it.
  abbrev pub goes_through : Bool
  goes_through =
      s.get_scheduler_client v.area_id
      && is_complete (s.get_asset_record v.area_id v.cid)
      && not f.on_read
      && (is_empty (get_un_sync_area_ids v.user_id v.hash t)
          || s.generate_token_for_download_sources v.cid)
      && not f.on_update

  -- A round for a user's file, whatever fails and whatever the schedulers answer. Where the file's own
  -- area answers that the upload is complete, the two statements succeed, and the token is given or no
  -- area is left to ask: a row of the file becomes synchronised exactly where its area answers with the
  -- owner's file and replicas of it, no row changes otherwise, and the payload is taken off the queue
  -- unless its deletion fails. Else no row changes and the payload stays in the queue.
  pub sync_user_scheduler_marks :
      str_eq v.user_id "" ≡ false
      → ((sync_user_scheduler s f v t).areas ≡ (if goes_through then map (marked s v) t else t))
        × ((sync_user_scheduler s f v t).done ≡ (goes_through && not f.on_delete))
  unfolding sync_user_scheduler update_then
  sync_user_scheduler_marks e =
      rw (sync_shedulers_cases (get_un_sync_area_ids v.user_id v.hash t))
        (ground (arith, found_areas-marked e))
