-- ===== src/Assets/Listing/Handlers.antt =====
-- The handlers `GetAssetListHandler` and `GetAssetAllListHandler` of api/events.go.
use titan_explorer.Base.{
  ℕ, zero, suc, ◌+◌, String, Option, none, some, List, [], ◌∷◌, ◌++◌, length, if◌then◌else◌, ltb,
}
use titan_explorer.Base.Int.{ℤ, pos}
use titan_explorer.Assets.Types.{Tables}
use titan_explorer.Assets.Overview.{Source, AssetOverview}
use titan_explorer.Assets.Listing.{Listed, list_assets}

pub data Answer (A : Type 0) : Type 0 where
  answered : A → Answer A
  internal_server : Answer A
  panicked : Answer A

module _ (s : Source) (t : Tables) (uid : String) where
  abbrev pub Pages : Type 0
  Pages = Answer (List (Option AssetOverview) × ℕ)

  -- What follows a page: `again` is the next round, with what there is so far.
  abbrev pub after_page :
      (List (Option AssetOverview) → ℕ → Option Pages)
      → List (Option AssetOverview)
      → ℕ
      → Option Listed
      → Option Pages
  after_page again so_far total none = some internal_server
  after_page again so_far total (some l) =
      let more = total + length l.list in
      if ltb more l.total
      then again (so_far ++ l.list) more
      else some (answered (so_far ++ l.list, l.total))

  -- The loop of `GetAssetAllListHandler`, with what it has so far. `none` is that the fuel is used up.
  unfoldable pub all_pages : ℕ → ℕ → List (Option AssetOverview) → ℕ → Option Pages
  unfolding list_assets
  all_pages zero gid so_far total = none
  all_pages (suc fuel) gid so_far total =
      after_page (λ next more. all_pages fuel gid next more) so_far total
        (list_assets s t uid (pos 100) (pos 100) gid)

  unfoldable pub get_asset_all_list_handler : ℕ → ℕ → Option Pages
  unfolding all_pages
  get_asset_all_list_handler fuel gid = all_pages fuel gid [] 0

  -- `CountFilStorage`, an error of which leaves the file out; a nil pointer in the list panics.
  unfoldable pub with_fil_count :
      (String → Option ℕ) → List (Option AssetOverview) → Option (List (AssetOverview × ℕ))
  with_fil_count count [] = some []
  with_fil_count count (none ∷ l) = none
  with_fil_count count (some a ∷ l) =
      let rest = with_fil_count count l in
      elim (count a.asset_record.cid) [
        | none ↦ rest
        | some n ↦ elim rest [ none ↦ none | some r ↦ some ((a, n) ∷ r) ]
      ]

  abbrev counted : (String → Option ℕ) → Option Listed → Answer (List (AssetOverview × ℕ) × ℕ)
  counted count none = internal_server
  counted count (some l) = elim (with_fil_count count l.list) [
    | none ↦ panicked
    | some r ↦ answered (r, l.total)
  ]

  -- `GetAssetListHandler`
  unfoldable pub get_asset_list_handler :
      (String → Option ℕ) → ℤ → ℤ → ℕ → Answer (List (AssetOverview × ℕ) × ℕ)
  unfolding list_assets with_fil_count
  get_asset_list_handler count page page_size gid =
      counted count (list_assets s t uid page page_size gid)
