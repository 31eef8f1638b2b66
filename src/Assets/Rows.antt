-- ===== src/Assets/Rows.antt =====
-- The statements of core/dao/user_assets.go and core/dao/asset_types.go, as functions on the rows.
use titan_explorer.Base.{
  ℕ, ◌+◌, String, Bool, true, false, not, ◌&&◌, Option, none, some, List, [], ◌∷◌, ◌++◌, map,
  length, keep, any, if◌then◌else◌, str_eq, ◌==◌,
}
use titan_explorer.Base.Sql.{Scan, no_rows, scanned}
use titan_explorer.Base.Int.{ℤ, pos, pos_part, neg_part, sub_ℕ}
use titan_explorer.Assets.Types.{
  UserAsset, UserAssetArea, AssetGroup, UserSize, AssetMap, SubAssetDetail,
}

-- `x IN (…)`
abbrev pub among : String → List String → Bool
among s l = any (λ t. str_eq t s) l

abbrev pub is_in : ℕ → List ℕ → Bool
is_in n l = any (λ m. m == n) l

abbrev pub of_user : String → String → UserAsset → Bool
of_user h u a = str_eq a.hash h && str_eq a.user_id u

unfoldable pub find_asset : String → String → List UserAsset → Option UserAsset
find_asset h u [] = none
find_asset h u (a ∷ t) = if of_user h u a then some a else find_asset h u t

abbrev pub scan_of : {A : Type 0} → Option A → Scan A
scan_of none = no_rows
scan_of (some a) = scanned a

abbrev pub size_of : Option UserAsset → Scan SubAssetDetail
size_of none = no_rows
size_of (some a) = scanned (record { cid = a.cid; total_size = a.total_size })

abbrev pub delete_asset_rows : String → String → List UserAsset → List UserAsset
delete_asset_rows h u = keep (λ a. not (of_user h u a))

abbrev pub in_groups : String → List ℕ → UserAsset → Bool
in_groups u ids a = str_eq a.user_id u && is_in a.group_id ids

unfoldable pub sum_of : (UserAsset → Bool) → List UserAsset → ℕ
sum_of p [] = 0
sum_of p (a ∷ t) = (if p a then a.total_size else 0) + sum_of p t

-- `UPDATE user_asset SET … WHERE …`
unfoldable pub update_assets :
    (UserAsset → Bool) → (UserAsset → UserAsset) → List UserAsset → List UserAsset
update_assets p f [] = []
update_assets p f (a ∷ t) = (if p a then f a else a) ∷ update_assets p f t

-- `UPDATE users SET used_storage_size = … WHERE username = ?`
unfoldable pub update_used : String → (ℤ → ℤ) → List UserSize → List UserSize
update_used u f [] = []
update_used u f (r ∷ t) =
    (if str_eq r.username u then record r { used_storage_size = f r.used_storage_size } else r)
    ∷ update_used u f t

abbrev pub plus : ℕ → ℤ → ℤ
plus n z = sub_ℕ (pos_part z + n) (neg_part z)

abbrev pub minus : ℕ → ℤ → ℤ
minus n z = sub_ℕ (pos_part z) (neg_part z + n)

-- `GREATEST(…, 0)`
abbrev pub at_least_0 : ℤ → ℤ
at_least_0 z = pos (pos_part z)

abbrev pub area_eq : String → String → String → UserAssetArea → Bool
area_eq h u aid r = str_eq r.hash h && str_eq r.user_id u && str_eq r.area_id aid

-- `INSERT IGNORE INTO user_asset_area`, a row for each area, not synchronised.
unfoldable pub insert_ignore_areas :
    String → String → List String → List UserAssetArea → List UserAssetArea
insert_ignore_areas h u [] t = t
insert_ignore_areas h u (aid ∷ l) t = insert_ignore_areas h u l (
    if any (area_eq h u aid) t
    then t
    else t ++ (record { hash = h; user_id = u; area_id = aid; is_sync = false } ∷ []))

unfoldable pub set_sync : (UserAssetArea → Bool) → Bool → List UserAssetArea → List UserAssetArea
set_sync p b [] = []
set_sync p b (r ∷ t) = (if p r then record r { is_sync = b } else r) ∷ set_sync p b t

-- `INSERT … ON DUPLICATE KEY UPDATE is_sync = VALUES(is_sync)`, a row for each area.
unfoldable pub upsert_areas :
    String → String → List String → List UserAssetArea → List UserAssetArea
unfolding set_sync
upsert_areas h u [] t = t
upsert_areas h u (aid ∷ l) t = upsert_areas h u l (
    if any (area_eq h u aid) t
    then set_sync (area_eq h u aid) true t
    else t ++ (record { hash = h; user_id = u; area_id = aid; is_sync = true } ∷ []))

abbrev pub of_areas : String → String → List String → UserAssetArea → Bool
of_areas h u aids r = str_eq r.hash h && str_eq r.user_id u && among r.area_id aids

unfoldable pub insert_ignore_map : String → String → List AssetMap → List AssetMap
insert_ignore_map u h t =
    if any (λ m. str_eq m.user_id u && str_eq m.asset_hash h) t
    then t
    else t ++ (record { user_id = u; asset_hash = h } ∷ [])

unfoldable pub find_group : ℕ → List AssetGroup → Option AssetGroup
find_group id [] = none
find_group id (g ∷ t) = if g.id == id then some g else find_group id t

abbrev pub parent_of : Option AssetGroup → Scan ℕ
parent_of none = no_rows
parent_of (some g) = scanned g.parent

-- `SELECT id … WHERE user_id = ? AND id = ?`
unfoldable pub find_own_group : String → ℕ → List AssetGroup → Scan ℕ
find_own_group u id [] = no_rows
find_own_group u id (g ∷ t) =
    if str_eq g.user_id u && g.id == id then scanned g.id else find_own_group u id t

abbrev pub count_of : (AssetGroup → Bool) → List AssetGroup → ℕ
count_of p t = length (keep p t)

abbrev pub child_of : String → List ℕ → AssetGroup → Bool
child_of u ids g = str_eq g.user_id u && is_in g.parent ids

unfoldable pub children : String → List ℕ → List AssetGroup → List ℕ
children u ids [] = []
children u ids (g ∷ t) = if child_of u ids g then g.id ∷ children u ids t else children u ids t

unfoldable pub update_groups :
    (AssetGroup → Bool) → (AssetGroup → AssetGroup) → List AssetGroup → List AssetGroup
update_groups p f [] = []
update_groups p f (g ∷ t) = (if p g then f g else g) ∷ update_groups p f t

abbrev pub own_group : String → ℕ → AssetGroup → Bool
own_group u id g = str_eq g.user_id u && g.id == id

-- A row of the join, which has a cid.
unfoldable pub with_cid :
    Option UserAsset → String → List (String × String) → List (String × String)
with_cid none area rest = rest
with_cid (some a) area rest = if str_eq a.cid "" then rest else (area, a.cid) ∷ rest

-- The areas of the files whose hashes are among `hashes`, each with its file's cid.
unfoldable pub joined : List String → List UserAsset → List UserAssetArea → List (String × String)
unfolding find_asset with_cid
joined hashes assets [] = []
joined hashes assets (r ∷ t) =
    let rest = joined hashes assets t in
    if among r.hash hashes
    then with_cid (find_asset r.hash r.user_id assets) r.area_id rest
    else rest

-- `aaMaps[v.AreaID] = append(aaMaps[v.AreaID], v.CID)`
unfoldable pub add_cid : String → String → List (String × List String) → List (String × List String)
add_cid area cid [] = (area, cid ∷ []) ∷ []
add_cid area cid (p ∷ m) =
    if str_eq p.0 area then (p.0, p.1 ++ (cid ∷ [])) ∷ m else p ∷ add_cid area cid m

unfoldable pub by_area :
    List (String × String) → List (String × List String) → List (String × List String)
unfolding add_cid
by_area [] m = m
by_area (p ∷ l) m = by_area l (add_cid p.0 p.1 m)

-- The files of the folders that lie in one area, by area: `GROUP BY ua.cid HAVING num = 1`.
unfoldable pub only_assets :
    String → List ℕ → List UserAsset → List UserAssetArea → List (String × List String)
unfolding joined by_area
only_assets u ids assets areas =
    let rows = joined (map (λ a. a.hash) (keep (in_groups u ids) assets)) assets areas in
    by_area (keep (λ p. length (keep (λ q. str_eq q.1 p.1) rows) == 1) rows) []
