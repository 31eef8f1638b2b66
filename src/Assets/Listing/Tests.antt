-- ===== src/Assets/Listing/Tests.antt =====
-- Listings of folders at concrete inputs.
use titan_explorer.Base.{◌*◌, ◌≡◌, refl, true, false, none, some, [], length, take, drop, arith}
use titan_explorer.Base.Int.{pos}
use titan_explorer.Assets.Samples.{sample}
use titan_explorer.Assets.Overview.{Source}
use titan_explorer.Assets.Listing.{Summary, list_asset_summary, group_offset}
use titan_explorer.Assets.Listing.Handlers.{
  answered, get_asset_list_handler, get_asset_all_list_handler,
}
use titan_explorer.Assets.Listing.Pages.{Answers, entries, list_asset_summary-page}
use titan_explorer.Assets.Listing.Loop.{get_asset_all_list_handler_hangs}

abbrev source : Source
source = record {
  enable_vip = some false;
  reads_count = true;
  reads_files = true;
  reads_group_count = true;
  reads_groups = true;
  reads_areas = λ h. true;
  hash_to_cid = λ h. some h;
  get_asset_record = λ area cid. none;
  order_files = λ l. l;
  order_groups = λ l. l;
}

answers : Answers source false
answers = record {
  user = refl;
  count = refl;
  files = refl;
  group_count = refl;
  groups = refl;
  keeps_files = λ l. refl;
  keeps_groups = λ l. refl;
}

list_asset_summary-page_example :
    (r : Summary) × (list_asset_summary source sample "u" 1 (pos 2) (pos 1) ≡ some r)
    × (r.list ≡ take 1 (drop (1 * 1) (entries source sample "u" false answers 1)))
    × (r.total ≡ length (entries source sample "u" false answers 1))
list_asset_summary-page_example =
    list_asset_summary-page source sample "u" false answers 1 1 1 (omega arith) (omega arith)
      (omega arith) (omega arith)

get_asset_all_list_handler_hangs_example :
    get_asset_all_list_handler source sample "u" 1000 1 ≡ none
get_asset_all_list_handler_hangs_example =
    get_asset_all_list_handler_hangs source sample "u" false answers 1 (omega arith) (omega arith)
      1000

-- Page 1 of size 10: the folder has a file, but the tenth from the first on is asked for.
first_page_empty :
    get_asset_list_handler source sample "u" (λ cid. some 0) (pos 1) (pos 10) 1 ≡ answered ([], 1)
unfolding get_asset_list_handler
first_page_empty = refl

-- The product wraps: page 2 ^ 32 + 1 of size 2 ^ 32 is at offset 0.
offset_wraps : group_offset source sample "u" (pos 4_294_967_297) (pos 4_294_967_296) ≡ pos 0
unfolding group_offset
offset_wraps = refl
