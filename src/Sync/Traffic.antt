-- ===== src/Sync/Traffic.antt =====
-- The traffic of the last ten minutes: `syncDashboard` (job/cron.go), `storeTfOrBw` and
-- `storeAssetHourStorages` (job/common.go). A traffic and a bandwidth are natural numbers.
use Prim.Native.Char.{code}
use Prim.Native.String.{◌++◌ as concat}
use titan_explorer.Base.{
  ℕ, String, Option, none, some, List, [], ◌∷◌, ◌++◌, if◌then◌else◌, str_eq, leb, ◌==◌,
}
use titan_explorer.Base.Int.{ℤ, pos}
use titan_explorer.Queue.Redis.{Redis}
use titan_explorer.Queue.Client.{get_asset_hour_download}

-- `sync.Map`, by key.
abbrev pub Maps : Type 0
Maps = List (String × ℕ)

unfoldable pub load : String → Maps → Option ℕ
load key [] = none
load key (p ∷ m) = if str_eq p.0 key then some p.1 else load key m

unfoldable pub store : String → ℕ → Maps → Maps
store key value [] = (key, value) ∷ []
store key value (p ∷ m) = if str_eq p.0 key then (key, value) ∷ m else p ∷ store key value m

abbrev pub store_larger : String → ℕ → Maps → Option ℕ → Maps
store_larger key value maps none = store key value maps
store_larger key value maps (some ov) = if leb value ov then maps else store key value maps

unfoldable pub store_tf_or_bw : String → ℕ → Maps → Maps
unfolding load store
store_tf_or_bw key value maps = store_larger key value maps (load key maps)

-- `fmt.Sprintf("%s_%s", user, hash)`, and `strings.Cut` at the first `_`.
unfoldable pub key_of : String → String → String
key_of user hash = concat user (concat "_" hash)

unfoldable pub cut : String → String × String
cut String.[] = ("", "")
cut (String.◌∷◌ c s) =
    let rest = cut s in if code c == b'_' then ("", s) else (String.◌∷◌ c rest.0, rest.1)

-- `DownloadResult` of a scheduler, the fields that are read.
pub record Info : Type 0 where
  pub user_id : String
  pub hash : String
  pub total_traffic : ℕ
  pub peak_bandwidth : ℕ

-- The loop over the infos of the areas, in any order: the two maps.
unfoldable pub store_infos : List Info → Maps × Maps → Maps × Maps
unfolding store_tf_or_bw key_of
store_infos [] maps = maps
store_infos (v ∷ infos) maps =
    let key = key_of v.user_id v.hash in
    store_infos infos
      (store_tf_or_bw key v.total_traffic maps.0, store_tf_or_bw key v.peak_bandwidth maps.1)

-- A row of `asset_storage_hour`.
pub record AssetStorageHour : Type 0 where
  pub hash : String
  pub user_id : String
  pub total_traffic : ℕ
  pub peak_bandwidth : ℕ
  pub download_count : ℤ
  pub timestamp : ℕ

abbrev pub or_zero : Option ℕ → ℕ
or_zero none = 0
or_zero (some v) = v

abbrev count_or_zero : Option ℤ → ℤ
count_or_zero none = pos 0
count_or_zero (some v) = v

module _ {S : Type 0} (rds : Redis S) (ts : ℕ) (bmaps : Maps) where
  -- The row of a key, and the store after its count of downloads is taken.
  unfoldable pub row_of : String × ℕ → S → AssetStorageHour × S
  unfolding cut load get_asset_hour_download
  row_of p s =
      let names = cut p.0 in
      let (count, s') = get_asset_hour_download rds names.1 names.0 s in
      (
        record {
          hash = names.1;
          user_id = names.0;
          total_traffic = p.1;
          peak_bandwidth = or_zero (load p.0 bmaps);
          download_count = count_or_zero count;
          timestamp = ts;
        },
        s',
      )

  unfoldable pub rows_of : Maps → S → List AssetStorageHour × S
  unfolding row_of
  rows_of [] s = ([], s)
  rows_of (p ∷ m) s =
      let (row, s') = row_of p s in let (rows, s'') = rows_of m s' in (row ∷ rows, s'')

-- What the areas answer; an area that fails is left out.
unfoldable pub answered_infos : List (Option (List Info)) → List Info
answered_infos [] = []
answered_infos (none ∷ l) = answered_infos l
answered_infos (some infos ∷ l) = infos ++ answered_infos l

-- The rows that are inserted.
unfoldable pub sync_dashboard :
    {S : Type 0} → Redis S → ℕ → List (Option (List Info)) → S → List AssetStorageHour × S
unfolding store_infos rows_of answered_infos
sync_dashboard rds ts areas s =
    let maps = store_infos (answered_infos areas) ([], []) in rows_of rds ts maps.1 maps.0 s
