-- ===== src/Sync/Records.antt =====
-- The active records of an area, read page by page (`getSyncSuccessHash`).
use titan_explorer.Base.{
  ℕ, zero, suc, ◌+◌, ◌-◌, ◌*◌, ◌/◌, ◌%◌, ◌≡◌, refl, ap, sym, ◌∙◌, String, Bool, true, ◌&&◌, Option,
  none, some, List, [], ◌∷◌, ◌++◌, map, keep, length, take, drop, take-add, take-all, drop-add,
  arith, if◌then◌else◌, ltb,
}
use titan_explorer.Assets.Types.{UserAssetArea}
use titan_explorer.Sync.Rows.{check_asset_hash_is_exist, get_one_sync_success_area}
use titan_explorer.Sync.States.{check_sync_state}

-- `AssetRecord`, a scheduler's record of a file: the fields that are read.
pub record AssetRecord : Type 0 where
  pub cid : String
  pub hash : String
  pub state : String
  pub owner : String
  pub replica_infos : ℕ
  pub created_time : ℕ

-- What is asked besides: the clock, whether the scheduler removes the record (`true` is an error), and
-- the drawn number.
pub record Outside : Type 0 where
  pub now : ℕ
  pub remove_asset_record : String → Bool
  pub intn : ℕ → ℕ

-- A record was removed from the area, or a synchronisation was queued again.
pub data Action : Type 0 where
  removed : String → Action
  pushed : String → String → String → Action

abbrev pub limit : ℕ
limit = 100

module _ (o : Outside) (t : List UserAssetArea) where
  unfoldable pub restart : AssetRecord → List Action
  unfolding check_asset_hash_is_exist get_one_sync_success_area
  restart r =
      if ltb (r.created_time + 5) o.now && check_asset_hash_is_exist r.hash t
      then if o.remove_asset_record r.cid
        then []
        else removed r.cid ∷ (elim (get_one_sync_success_area o.intn r.hash t) [
          | none ↦ []
          | some aid ↦ pushed r.cid r.hash aid ∷ []
        ])
      else []

  -- The last loop: the hashes that are synchronised, and what is done about the others.
  unfoldable pub sort_records : List AssetRecord → List String × List Action
  unfolding restart check_sync_state
  sort_records [] = ([], [])
  sort_records (r ∷ records) =
      let rest = sort_records records in
      if check_sync_state r.state then (r.hash ∷ rest.0, rest.1) else (rest.0, restart r ++ rest.1)

-- `GetActiveAssetRecords`, by offset and limit: the number of all records and a page of them.
abbrev pub Pages : Type 0
Pages = ℕ → ℕ → Option (ℕ × List AssetRecord)

abbrev records_of : Option (ℕ × List AssetRecord) → List AssetRecord
records_of none = []
records_of (some (total, list)) = list

-- `for i := 2; i <= page; i++`, a page that fails is left out.
unfoldable pub more_pages : Pages → ℕ → ℕ → List AssetRecord
more_pages get zero i = []
more_pages get (suc n) i = records_of (get ((i - 1) * limit) limit) ++ more_pages get n (i + 1)

abbrev pub page_count : ℕ → ℕ
page_count total = total / limit + (if ltb 0 (total % limit) then 1 else 0)

module _ (o : Outside) (t : List UserAssetArea) where
  abbrev first_page : Pages → Option (ℕ × List AssetRecord) → Option (List String × List Action)
  first_page get none = none
  first_page get (some (total, list)) =
      some (sort_records o t (list ++ more_pages get (page_count total - 1) 2))

  -- `none` is an error; `reachable` says whether there is a client of the area's scheduler.
  unfoldable pub get_sync_success_hash : Bool → Pages → Option (List String × List Action)
  unfolding sort_records more_pages
  get_sync_success_hash reachable get = if reachable then first_page get (get 0 limit) else none

-- The records in one list, as the scheduler has them.
abbrev pub listed : List AssetRecord → Pages
listed all offset size = some (length all, take size (drop offset all))

-- The pages from the `suc j`-th on are one page.
more_pages-listed :
    (all : List AssetRecord) (n i j : ℕ)
    → i ≡ suc j
    → more_pages (listed all) n i ≡ take (n * limit) (drop (j * limit) all)
unfolding more_pages
more_pages-listed all zero i j e = refl
more_pages-listed all (suc n) i j e =
    let at : (i - 1) * limit ≡ j * limit = omega arith in
    let rest : more_pages (listed all) n (i + 1) ≡ take (n * limit) (drop (suc j * limit) all) =
      more_pages-listed all n (i + 1) (suc j) (omega arith) in
    let next : drop (suc j * limit) all ≡ drop limit (drop (j * limit) all) =
      ap (λ k. drop k all) {x = suc j * limit} {y = j * limit + limit} (omega arith)
      ∙ sym (drop-add (j * limit) limit all) in
    let size : limit + n * limit ≡ suc n * limit = omega arith in
    rw (at, rest, next)
      (take-add limit (n * limit) (drop (j * limit) all)
        ∙ ap (λ k. take k (drop (j * limit) all)) size)

-- All the pages, in order, are all the records.
pub listed_pages :
    (all : List AssetRecord)
    → take limit all ++ more_pages (listed all) (page_count (length all) - 1) 2 ≡ all
listed_pages all =
    ap (λ t. take limit all ++ t) (more_pages-listed all (page_count (length all) - 1) 2 1 refl)
    ∙ take-add limit ((page_count (length all) - 1) * limit) all
    ∙ take-all _ all (ground arith)

-- The hashes of the records whose upload is complete.
abbrev pub complete : List AssetRecord → List String
complete l = map (λ r. r.hash) (keep (λ r. check_sync_state r.state) l)

-- Nothing is removed and nothing is queued again: the check of the hash never succeeds.
pub sort_records_complete :
    (o : Outside) (t : List UserAssetArea) (l : List AssetRecord)
    → sort_records o t l ≡ (complete l, [])
unfolding sort_records restart check_asset_hash_is_exist
sort_records_complete o t [] = refl
sort_records_complete o t (r ∷ l) = ground (arith, sort_records_complete o t l)

pub get_sync_success_hash_complete :
    (o : Outside) (t : List UserAssetArea) (all : List AssetRecord)
    → get_sync_success_hash o t true (listed all) ≡ some (complete all, [])
unfolding get_sync_success_hash
get_sync_success_hash_complete o t all =
    rw (listed_pages all) (ap some (sort_records_complete o t all))
