-- ===== src/Sync/Rows.antt =====
-- The statements of core/dao/user_assets.go on the rows of the files' areas that the rounds of
-- synchronisation use.
use titan_explorer.Base.{
  ℕ, String, Bool, true, false, not, ◌&&◌, ◌||◌, Option, none, some, List, [], ◌∷◌, keep, map,
  length, get_elem?, str_eq, ltb,
}
use titan_explorer.Assets.Types.{UserAssetArea}
use titan_explorer.Assets.Rows.{among, set_sync}

-- `SELECT DISTINCT(area_id)`
unfoldable pub distinct : List String → List String
distinct [] = []
distinct (a ∷ l) = a ∷ keep (λ b. not (str_eq b a)) (distinct l)

abbrev pub unsynced : String → String → UserAssetArea → Bool
unsynced uid hash r = str_eq r.hash hash && not r.is_sync && (str_eq uid "" || str_eq r.user_id uid)

unfoldable pub get_un_sync_area_ids : String → String → List UserAssetArea → List String
unfolding distinct
get_un_sync_area_ids uid hash t = distinct (map (λ r. r.area_id) (keep (unsynced uid hash) t))

-- The areas that have a file, one of which is drawn: `intn n` is a number below n. `none` is an error.
unfoldable pub get_one_sync_success_area : (ℕ → ℕ) → String → List UserAssetArea → Option String
unfolding distinct
get_one_sync_success_area intn hash t =
    let aids = distinct (map (λ r. r.area_id) (keep (λ r. str_eq r.hash hash && r.is_sync) t)) in
    get_elem? aids (intn (length aids))

-- sqlx's `Select` of one number: the destination is no slice, which is an error whatever the rows are.
abbrev select_number : ℕ → Option ℕ
select_number n = none

abbrev is_positive : Option ℕ → Bool
is_positive none = false
is_positive (some n) = ltb 0 n

unfoldable pub check_asset_hash_is_exist : String → List UserAssetArea → Bool
check_asset_hash_is_exist hash t =
    is_positive (select_number (length (keep (λ r. str_eq r.hash hash && not r.is_sync) t)))

unfoldable pub update_sync_asset_areas :
    String → List String → List UserAssetArea → List UserAssetArea
unfolding set_sync
update_sync_asset_areas area_id hashs t =
    set_sync (λ r. str_eq r.area_id area_id && among r.hash hashs && not r.is_sync) true t
