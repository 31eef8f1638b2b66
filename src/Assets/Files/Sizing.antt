-- ===== src/Assets/Files/Sizing.antt =====
-- What a client sees of the files: which a user has, and their sizes; and the requests on that view.
use titan_explorer.Base.{
  ℕ, ◌≡◌, refl, String, Bool, true, ◌&&◌, Option, none, some, List, [], ◌∷◌, ◌++◌, arith,
  if◌then◌else◌, str_eq, eq_iff,
}
use titan_explorer.Assets.Types.{UserAsset}
use titan_explorer.Assets.Rows.{find_asset, of_user, delete_asset_rows, update_assets}
use titan_explorer.Assets.Files.Requests.{FileRequest}

-- The size of a user's file with a hash.
abbrev pub View : Type 0
View = String → String → Option ℕ

abbrev pub size? : Option UserAsset → Option ℕ
size? none = none
size? (some a) = some a.total_size

abbrev pub view : List UserAsset → View
view l h u = size? (find_asset h u l)

abbrev pub is_key : String → String → String → String → Bool
is_key h u h' u' = str_eq h h' && str_eq u u'

-- A file that is there keeps its size.
abbrev pub added : UserAsset → View → View
added a v h u = elim (v a.hash a.user_id) [
  | none ↦ if is_key a.hash a.user_id h u then some a.total_size else v h u
  | some _ ↦ v h u
]

abbrev pub deleted : String → String → View → View
deleted h' u' v h u = if is_key h' u' h u then none else v h u

-- A request as it should be.
abbrev pub intended : FileRequest → View → View
intended (FileRequest.add a area_ids sync_area) v = added a v
intended (FileRequest.del hash user_id area_id true) v = deleted hash user_id v
intended _ v = v

find_asset-append :
    (a : UserAsset) (l : List UserAsset) (h u : String)
    → find_asset h u (l ++ (a ∷ []))
      ≡ elim (find_asset h u l) [ none ↦ if of_user h u a then some a else none | some b ↦ some b ]
unfolding find_asset
find_asset-append a [] h u = refl
find_asset-append a (b ∷ l) h u = ground (arith, find_asset-append a l h u)

pub view-append :
    (a : UserAsset) (l : List UserAsset) (h u : String)
    → find_asset a.hash a.user_id l ≡ none
    → view (l ++ (a ∷ [])) h u ≡ added a (view l) h u
view-append a l h u e =
    ground (arith, e, find_asset-append a l h u, eq_iff a.hash h, eq_iff a.user_id u)

pub view-delete :
    (h' u' : String) (l : List UserAsset) (h u : String)
    → view (delete_asset_rows h' u' l) h u ≡ deleted h' u' (view l) h u
unfolding find_asset
view-delete h' u' [] h u = ground arith
view-delete h' u' (b ∷ l) h u = ground (
  arith,
  view-delete h' u' l h u,
  eq_iff b.hash h,
  eq_iff b.user_id u,
  eq_iff b.hash h',
  eq_iff b.user_id u',
  eq_iff h' h,
  eq_iff u' u,
)

pub view-update :
    (p : UserAsset → Bool) (f : UserAsset → UserAsset) (l : List UserAsset) (h u : String)
    → ((a : UserAsset)
        → ((f a).user_id ≡ a.user_id) × ((f a).hash ≡ a.hash) × ((f a).total_size ≡ a.total_size))
    → view (update_assets p f l) h u ≡ view l h u
unfolding find_asset update_assets
view-update p f [] h u k = refl
view-update p f (a ∷ l) h u k = ground (arith, k a, view-update p f l h u k)
