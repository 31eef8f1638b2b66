-- ===== src/Assets/Listing.antt =====
-- The listing of a folder: `ListAssets`, `ListAssetGroupForUser` (core/dao/user_assets.go),
-- `listAssets`, `listAssetSummary` (api/common.go).
pub mod Handlers
pub mod Pages
pub mod Loop
mod Tests
use titan_explorer.Base.{
  ℕ, zero, suc, ◌+◌, ◌-◌, ◌*◌, ◌%◌, String, Bool, true, false, not, ◌&&◌, Option, none, some, List,
  [], ◌∷◌, ◌++◌, keep, map, length, take, drop, if◌then◌else◌, str_eq, leb, ltb, ◌==◌,
}
use titan_explorer.Base.Int.{ℤ, pos, mul64, sub64, ltb_ℤ, to_uint64}
use titan_explorer.Assets.Types.{UserAsset, AssetGroup, UserAssetArea, Visit, Tables}
use titan_explorer.Assets.Overview.{Source, AssetOverview, overview, all_updates}
use titan_explorer.Assets.Rows.{sum_of}

-- `ListAssetRecordRsp`, where an entry can be a nil pointer, and the cids that are stored on the way.
pub record Listed : Type 0 where
  pub total : ℕ
  pub list : List (Option AssetOverview)
  pub updates : List (String × String)

-- A folder with the number of the files in it and the sum of their sizes.
pub record GroupContent : Type 0 where
  pub row : AssetGroup
  pub asset_count : ℕ
  pub asset_size : ℕ

-- `UserAssetSummary`
pub data Entry : Type 0 where
  group : GroupContent → Entry
  file : Option AssetOverview → Entry

pub record Summary : Type 0 where
  pub total : ℕ
  pub list : List Entry
  pub updates : List (String × String)

abbrev pub in_folder : String → ℕ → UserAsset → Bool
in_folder uid gid a = str_eq a.user_id uid && a.group_id == gid

abbrev pub in_parent : String → ℕ → AssetGroup → Bool
in_parent uid parent g = str_eq g.user_id uid && g.parent == parent

module _ (s : Source) (t : Tables) (uid : String) where
  abbrev pub files_of : ℕ → List UserAsset
  files_of gid = s.order_files (keep (in_folder uid gid) t.assets)

  abbrev pub with_content : AssetGroup → GroupContent
  with_content g = record {
    row = g;
    asset_count = length (keep (in_folder g.user_id g.id) t.assets);
    asset_size = sum_of (in_folder g.user_id g.id) t.assets;
  }

  abbrev pub groups_of : ℕ → List GroupContent
  groups_of parent = map with_content (s.order_groups (keep (in_parent uid parent) t.groups))

  -- `none` is an error. The first number is the count.
  unfoldable pub dao_list_assets : ℤ → ℤ → ℕ → Option (ℕ × List UserAsset)
  dao_list_assets limit offset gid =
      if s.reads_count && s.reads_files
      then some (
        length (keep (in_folder uid gid) t.assets),
        take (to_uint64 limit) (drop (to_uint64 offset) (files_of gid)),
      )
      else none

  unfoldable pub list_asset_group_for_user : ℕ → ℤ → ℤ → Option (ℕ × List GroupContent)
  list_asset_group_for_user parent limit offset =
      if s.reads_group_count && s.reads_groups
      then some (
        length (keep (in_parent uid parent) t.groups),
        take (to_uint64 limit) (drop (to_uint64 offset) (groups_of parent)),
      )
      else none

  abbrev overviews : Bool → Option (ℕ × List UserAsset) → Option Listed
  overviews vip none = none
  overviews vip (some (total, infos)) = some (record {
    total = total;
    list = map (overview s t uid vip) infos;
    updates = all_updates s t uid infos;
  })

  abbrev for_user : Option Bool → Option (ℕ × List UserAsset) → Option Listed
  for_user none infos = none
  for_user (some vip) infos = overviews vip infos

  unfoldable pub list_assets : ℤ → ℤ → ℕ → Option Listed
  unfolding dao_list_assets overview all_updates
  list_assets limit offset gid = for_user s.enable_vip (dao_list_assets limit offset gid)

  -- `offset := (page - 1) * size` on `int`.
  unfoldable pub group_offset : ℤ → ℤ → ℤ
  unfolding mul64 sub64
  group_offset page size = mul64 (sub64 page (pos 1)) size

  abbrev pub or_0 : ℤ → ℤ
  or_0 z = if ltb_ℤ z (pos 0) then pos 0 else z

  unfoldable pub file_limit : ℤ → ℕ → ℤ
  unfolding sub64
  file_limit size groups = or_0 (sub64 size (pos groups))

  unfoldable pub file_offset : ℤ → ℤ → ℕ → ℤ
  unfolding sub64 group_offset
  file_offset page size total = or_0 (sub64 (group_offset page size) (pos total))

  abbrev pub then_files : List GroupContent → ℕ → Option Listed → Option Summary
  then_files groups total none = none
  then_files groups total (some l) = some (record {
    list = map group groups ++ map file l.list;
    total = total + l.total;
    updates = l.updates;
  })

  abbrev pub then_groups : ℕ → ℤ → ℤ → Option (ℕ × List GroupContent) → Option Summary
  then_groups parent page size none = none
  then_groups parent page size (some (total, groups)) =
      then_files groups total
        (list_assets (file_limit size (length groups)) (file_offset page size total) parent)

  -- `listAssetSummary`: the folders, and after the last of them the files.
  unfoldable pub list_asset_summary : ℕ → ℤ → ℤ → Option Summary
  unfolding list_asset_group_for_user list_assets group_offset file_limit file_offset
  list_asset_summary parent page size =
      then_groups parent page size (list_asset_group_for_user parent size (group_offset page size))
