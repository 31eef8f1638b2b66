-- ===== src/Queue/Tests.antt =====
-- The queues at concrete inputs: the theorems at values that meet their hypotheses, in
-- memory.
use titan_explorer.Base.{
  ◌≡◌, ◌≢◌, refl, String, Bool, false, ◌&&◌, none, some, List, [], ◌∷◌, All, arith, if◌then◌else◌,
  str_eq, eq_iff,
}
use titan_explorer.Base.Int.{pos}
use titan_explorer.Queue.Redis.{Json, remove_first, remove_all, occurrences}
use titan_explorer.Queue.Memory.{Store, push, pop, pop_all, count, memory, empty}
use titan_explorer.Queue.Client.{
  AreaIdPayload, area_key, push_area_ids, get_all_area_ids, push_info, get_all_infos, del_info,
  download_key, incr_asset_hour_download, get_asset_hour_download,
}
use titan_explorer.Queue.Lists.{nothing, entry, queue_push_del}
use titan_explorer.Queue.AreaIds.{push_area_ids-present}
use titan_explorer.Queue.Counters.{times, downloads_are_counted}

abbrev payload : AreaIdPayload
payload = record { cid = "bafy"; hash = "1220"; area_ids = [] }

-- An encoding of this payload; any other fails.
abbrev is_payload : AreaIdPayload → Bool
is_payload p = elim p.area_ids [ [] ↦ str_eq p.cid "bafy" && str_eq p.hash "1220" | _ ∷ _ ↦ false ]

is_payload-same :
    (p : AreaIdPayload) (v : String)
    → (if is_payload p then some "{}" else none) ≡ some v
    → some payload ≡ some p
is_payload-same p v e = ground (arith, e, eq_iff p.cid "bafy", eq_iff p.hash "1220")

abbrev json : Json AreaIdPayload
json = record {
  marshal = λ p. if is_payload p then some "{}" else none;
  unmarshal = λ v. some payload;
  unmarshal-marshal = is_payload-same;
}

abbrev one : Store
one = push area_key "{}" empty

queue_push_del_example : ((payload ∷ []) ≡ payload ∷ []) × (◌≡◌ {A = List AreaIdPayload} [] [])
unfolding push_info get_all_infos del_info remove_first
queue_push_del_example =
    queue_push_del memory json area_key payload [] (payload ∷ []) [] empty one
      (pop area_key "{}" one) nothing refl refl refl refl

push_area_ids-present_example : All (λ x. x ≢ payload) []
unfolding push_area_ids occurrences get_all_area_ids remove_all
push_area_ids-present_example =
    push_area_ids-present memory json payload [] [] [] one (pop_all area_key "{}" one)
      (entry refl nothing) refl refl

abbrev downloads : String
downloads = download_key memory "1220" "titan1a"

downloads_are_counted_example : (pos 3 ≡ pos 3) × (pos 0 ≡ pos 0)
unfolding times incr_asset_hour_download get_asset_hour_download
downloads_are_counted_example =
    downloads_are_counted memory "1220" "titan1a" 3 empty
      (count downloads (count downloads (count downloads empty))) (pos 3) (pos 0) refl refl refl
      refl
