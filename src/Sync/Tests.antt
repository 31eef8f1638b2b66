-- ===== src/Sync/Tests.antt =====
-- Rounds of synchronisation at concrete inputs, and the texts of states.
use titan_explorer.Base.{
  ◌≡◌, refl, String, Bool, true, false, not, ◌&&◌, Option, none, some, List, [], ◌∷◌, map, keep,
  if◌then◌else◌, str_eq,
}
use titan_explorer.Queue.Client.{Payload}
use titan_explorer.Assets.Types.{UserAssetArea}
use titan_explorer.Sync.States.{equal_fold, check_sync_state}
use titan_explorer.Sync.Rows.{get_one_sync_success_area, unsynced}
use titan_explorer.Sync.Records.{AssetRecord, Outside, listed, sort_records}
use titan_explorer.Sync.Success.{get_sync_success_asset, in_area, get_sync_success_asset_marks}
use titan_explorer.Sync.Areas.{Schedulers, has_file}
use titan_explorer.Sync.Round.{Fails, sync_user_scheduler}
use titan_explorer.Sync.Marks.{marked, goes_through, sync_user_scheduler_marks}
use titan_explorer.Sync.Ending.{Succeeds, sync_user_scheduler_completes}

folded : equal_fold "Servicing" "SERVICING" ≡ true
unfolding equal_fold
folded = refl

not_pulled : check_sync_state "EdgesPull" ≡ false
unfolding check_sync_state
not_pulled = refl

abbrev asset : String → String → AssetRecord
asset cid state = record {
  cid = cid;
  hash = cid;
  state = state;
  owner = "o";
  replica_infos = 2;
  created_time = 10;
}

abbrev records : List AssetRecord
records = asset "h" "servicing" ∷ asset "k" "SeedPulling" ∷ asset "m" "EdgesPulling" ∷ []

abbrev outside : Outside
outside = record { now = 20; remove_asset_record = λ c. false; intn = λ n. 0 }

abbrev row : String → Bool → UserAssetArea
row area is_sync = record { hash = "h"; user_id = "u"; area_id = area; is_sync = is_sync }

abbrev rows : List UserAssetArea
rows = row "a" true ∷ row "b" false ∷ row "c" false ∷ row "d" false ∷ []

sorted : sort_records outside rows records ≡ ("h" ∷ "m" ∷ [], [])
unfolding sort_records
sorted = refl

drawn : get_one_sync_success_area (λ n. 0) "h" rows ≡ some "a"
unfolding get_one_sync_success_area
drawn = refl

get_sync_success_asset_marks_example :
    get_sync_success_asset outside true false "b" rows (listed records)
    ≡ (map (in_area "b" records) rows, [])
get_sync_success_asset_marks_example = get_sync_success_asset_marks outside "b" records rows

-- The file is in area "a"; area "b" has it as well, "c" does not, and "d" does not answer.
abbrev record_in : String → Option AssetRecord
record_in area = if str_eq area "c" then none else some (asset "h" "Servicing")

abbrev schedulers : Schedulers
schedulers = record {
  generate_token_for_download_sources = λ c. true;
  get_scheduler_client = λ area. if str_eq area "d" then false else true;
  get_asset_record = λ area c. record_in area;
}

abbrev payload_of : String → Payload
payload_of user_id = record { user_id = user_id; cid = "h"; hash = "h"; owner = "o"; area_id = "a" }

abbrev no_fails : Fails
no_fails = record { on_read = false; on_update = false; on_delete = false }

round : sync_user_scheduler schedulers no_fails (payload_of "u") rows ≡ record {
  areas = row "a" true ∷ row "b" true ∷ row "c" false ∷ row "d" false ∷ [];
  asked = "c" ∷ [];
  done = true;
}
unfolding sync_user_scheduler
round = refl

-- The deletion of the payload fails.
abbrev keeps_payload : Fails
keeps_payload = record no_fails { on_delete = true }

sync_user_scheduler_marks_example :
    ((sync_user_scheduler schedulers keeps_payload (payload_of "u") rows).areas ≡ (
      if goes_through schedulers keeps_payload (payload_of "u") rows
      then map (marked schedulers (payload_of "u")) rows
      else rows))
    × ((sync_user_scheduler schedulers keeps_payload (payload_of "u") rows).done ≡ (
        goes_through schedulers keeps_payload (payload_of "u") rows && not keeps_payload.on_delete))
sync_user_scheduler_marks_example =
    sync_user_scheduler_marks schedulers keeps_payload (payload_of "u") rows refl

succeeds : (u : String) → Succeeds schedulers no_fails (payload_of u)
unfolding check_sync_state
succeeds u = record {
  client = refl;
  complete = refl;
  token = refl;
  reads = refl;
  updates = refl;
  deletes = refl;
}

abbrev nearly : List UserAssetArea
nearly = row "a" true ∷ row "b" false ∷ []

sync_user_scheduler_completes_example :
    (keep (unsynced "u" "h") (sync_user_scheduler schedulers no_fails (payload_of "u") nearly).areas
      ≡ [])
    × ((sync_user_scheduler schedulers no_fails (payload_of "u") nearly).done ≡ true)
unfolding has_file
sync_user_scheduler_completes_example =
    sync_user_scheduler_completes schedulers no_fails (payload_of "u") nearly refl (succeeds "u")
      ((λ e. refl), ((λ e. refl), tt))
