-- ===== src/Assets/Overview.antt =====
-- What is shown of a file: a goroutine of `listAssets` (api/common.go), which asks the schedulers of
-- the areas that have the file.
use titan_explorer.Base.{
  ℕ, ◌+◌, String, Bool, not, ◌&&◌, Option, none, some, List, [], ◌∷◌, ◌++◌, keep, map,
  if◌then◌else◌, str_eq, leb, ◌==◌,
}
use titan_explorer.Base.Int.{ℤ, sub_ℕ}
use titan_explorer.Assets.Types.{UserAsset, AssetGroup, Visit, Tables}

-- A scheduler's record of a file.
pub record Report : Type 0 where
  pub cid : String
  pub need_edge_replica : ℕ
  pub replenish_replicas : ℕ
  pub replica_infos : ℕ
  pub total_size : ℕ
  pub total_blocks : ℕ
  pub created_time : ℕ
  pub end_time : ℕ
  pub expiration : ℕ
  pub note : String
  pub server_id : String
  pub state : String
  pub source : ℕ

-- What the areas' records come to, `AssetRecord` of the answer.
pub record AssetRecord : Type 0 where
  pub cid : String
  pub hash : String
  pub need_edge_replica : ℕ
  pub need_candidate_replicas : ℕ
  pub replica_nums : ℕ
  pub total_size : ℕ
  pub total_blocks : ℕ
  pub created_time : ℕ
  pub end_time : ℕ
  pub expiration : ℕ
  pub note : String
  pub server_id : String
  pub state : String
  pub source : ℕ

pub record AssetOverview : Type 0 where
  pub asset_record : AssetRecord
  pub user_asset_detail : UserAsset
  pub share_status : ℕ
  pub area_ids : List String
  pub visit_count : ℕ
  pub remain_visit_count : ℤ

-- What is asked besides the rows: whether each read succeeds, the user, the schedulers (`none` is an
-- error), the conversion of hashes, and the order in which rows of equal creation time are answered,
-- which the database chooses.
pub record Source : Type 0 where
  pub enable_vip : Option Bool
  pub reads_count : Bool
  pub reads_files : Bool
  pub reads_group_count : Bool
  pub reads_groups : Bool
  pub reads_areas : String → Bool
  pub hash_to_cid : String → Option String
  pub get_asset_record : String → String → Option Report
  pub order_files : List UserAsset → List UserAsset
  pub order_groups : List AssetGroup → List AssetGroup

abbrev pub max_count_of_visit_asset : ℕ
max_count_of_visit_asset = 10

module _ (s : Source) (t : Tables) (uid : String) where
  abbrev visits_of : UserAsset → List Visit → ℕ
  visits_of a [] = 0
  visits_of a (v ∷ l) =
      if str_eq v.hash a.hash && str_eq v.user_id a.user_id then v.count else visits_of a l

  abbrev areas_of : UserAsset → List String
  areas_of a =
      map (λ r. r.area_id)
        (keep (λ r. str_eq r.user_id uid && str_eq r.hash a.hash && r.is_sync) t.areas)

  -- The record of one area is added; the first that has a size gives the rest.
  unfoldable pub add_report : AssetRecord → Report → AssetRecord
  add_report records record' =
      let sums = record records {
        need_edge_replica = records.need_edge_replica + record'.need_edge_replica;
        need_candidate_replicas = records.need_candidate_replicas + record'.replenish_replicas;
        replica_nums = records.replica_nums + record'.replica_infos;
      } in
      if records.total_size == 0
      then record sums {
        cid = record'.cid;
        created_time = record'.created_time;
        end_time = record'.end_time;
        expiration = record'.expiration;
        note = record'.note;
        server_id = record'.server_id;
        state = record'.state;
        source = record'.source;
        total_blocks = record'.total_blocks;
        total_size = record'.total_size;
      }
      else sums

  abbrev add_found : AssetRecord → Option Report → AssetRecord
  add_found records none = records
  add_found records (some r) = add_report records r

  unfoldable pub add_reports : String → List String → AssetRecord → AssetRecord
  unfolding add_report
  add_reports cid [] records = records
  add_reports cid (area ∷ l) records =
      add_reports cid l (add_found records (s.get_asset_record area cid))

  -- The cid to ask for, and the cid in the record at first.
  abbrev cids_of : UserAsset → Option (String × String)
  cids_of a =
      if str_eq a.cid ""
      then elim (s.hash_to_cid a.hash) [ none ↦ none | some cid ↦ some (cid, "") ]
      else some (a.cid, a.cid)

  unfoldable pub overview_of : Bool → UserAsset → Option (String × String) → Option AssetOverview
  unfolding add_reports
  overview_of vip a none = none
  overview_of vip a (some (cid, shown)) =
      let visits = visits_of a t.visits in
      some (record {
        asset_record = add_reports cid (areas_of a) (record {
          cid = shown;
          hash = a.hash;
          need_edge_replica = 0;
          need_candidate_replicas = 0;
          replica_nums = 0;
          total_size = 0;
          total_blocks = 0;
          created_time = 0;
          end_time = 0;
          expiration = 0;
          note = "";
          server_id = "";
          state = "";
          source = 0;
        });
        user_asset_detail = a;
        share_status =
            (if not vip && leb max_count_of_visit_asset visits then 2 else a.share_status);
        area_ids = areas_of a;
        visit_count = visits;
        remain_visit_count = sub_ℕ max_count_of_visit_asset visits;
      })

  -- The body of the goroutine; `none` leaves a nil pointer in the list.
  unfoldable pub overview : Bool → UserAsset → Option AssetOverview
  unfolding overview_of
  overview vip a = if s.reads_areas a.hash then overview_of vip a (cids_of a) else none

  unfoldable pub reported : UserAsset → Option Report → List (String × String)
  reported a none = []
  reported a (some r) = (a.hash, r.cid) ∷ []

  unfoldable pub asked_areas : UserAsset → String → List String → List (String × String)
  unfolding reported
  asked_areas a cid [] = []
  asked_areas a cid (area ∷ l) = reported a (s.get_asset_record area cid) ++ asked_areas a cid l

  -- The cids that `UpdateAssetCid` stores, by hash: those of a file that has none.
  unfoldable pub cid_updates : UserAsset → List (String × String)
  unfolding asked_areas
  cid_updates a =
      if s.reads_areas a.hash && str_eq a.cid ""
      then elim (s.hash_to_cid a.hash) [ none ↦ [] | some cid ↦ asked_areas a cid (areas_of a) ]
      else []

  unfoldable pub all_updates : List UserAsset → List (String × String)
  unfolding cid_updates
  all_updates [] = []
  all_updates (a ∷ l) = cid_updates a ++ all_updates l
