-- ===== src/Assets/Listing/Loop.antt =====
-- The loop of `GetAssetAllListHandler`, which asks for the same page each time.
use titan_explorer.Base.{
  ℕ, zero, suc, ◌≤◌, ◌<◌, ◌≡◌, refl, ap, ◌∙◌, String, Bool, true, Option, none, List, [], ◌∷◌, ◌++◌,
  map, length, take, drop, arith, ltb,
}
use titan_explorer.Base.Int.{pos}
use titan_explorer.Assets.Types.{Tables}
use titan_explorer.Assets.Overview.{Source, AssetOverview, overview}
use titan_explorer.Assets.Listing.{files_of}
use titan_explorer.Assets.Listing.Handlers.{after_page, all_pages, get_asset_all_list_handler}
use titan_explorer.Assets.Listing.Pages.{Answers, list_assets_answers}

drop-all : {A : Type 0} → (n : ℕ) (l : List A) → length l ≤ n → drop n l ≡ []
drop-all zero [] h = refl
drop-all zero (x ∷ l) h = ground (arith, h)
drop-all (suc n) [] h = refl
drop-all (suc n) (x ∷ l) h = drop-all n l (omega (arith, h))

module _ (s : Source) (t : Tables) (uid : String) (vip : Bool) (p : Answers s vip) where
  module _ (gid : ℕ) (some_file : 0 < length (files_of s t uid gid))
      (few : length (files_of s t uid gid) ≤ 100) where
    all_pages_hang :
        (fuel : ℕ) (so_far : List (Option AssetOverview))
        → all_pages s t uid fuel gid so_far 0 ≡ none
    unfolding all_pages
    all_pages_hang zero so_far = refl
    all_pages_hang (suc fuel) so_far =
        let (l, e, n, f) = list_assets_answers s t uid vip p (pos 100) (pos 100) gid in
        let empty : l.list ≡ [] =
          f
          ∙ ap (λ k. map (overview s t uid vip) (take 100 k))
              (drop-all 100 (files_of s t uid gid) few) in
        let more : ltb 0 l.total ≡ true = ground (arith, n, some_file) in
        ap (after_page s t uid (λ next more. all_pages s t uid fuel gid next more) so_far 0) e
        ∙ rw (empty, more) (all_pages_hang fuel (so_far ++ []))

    -- Where nothing fails, a folder with at least one and at most a hundred files is never listed as a
    -- whole: the loop does not end, whatever number of rounds it is given.
    pub get_asset_all_list_handler_hangs :
        (fuel : ℕ) → get_asset_all_list_handler s t uid fuel gid ≡ none
    unfolding get_asset_all_list_handler
    get_asset_all_list_handler_hangs fuel = all_pages_hang fuel []
