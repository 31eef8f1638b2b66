-- ===== src/Assets/Folders/Move.antt =====
-- Moving a folder: the check climbs from the target, and a move that it lets pass keeps the forest.
use titan_explorer.Base.{ℕ, ◌≡◌, ◌≢◌, refl, String, some, List, ◌<◌, inl, inr, arith, Bool-cases}
use titan_explorer.Assets.Types.{AssetGroup, Tables}
use titan_explorer.Assets.Rows.{find_group, update_groups, own_group}
use titan_explorer.Assets.Folders.Forest.{
  Rooted, at_root, at_missing, above, above', find_group-id, find_group-update, IsKeyed-update,
}
use titan_explorer.Assets.Folders.Shape.{IsForest, All-Counted-update}

-- The way up from `id` to the root meets no folder `avoided`.
pub data Clear (t : List AssetGroup) (avoided : ℕ) : ℕ → Type 0 where
  reached : {id : ℕ} (g : AssetGroup) → find_group id t ≡ some g → g.parent ≡ 0 → Clear t avoided id
  climbed :
      {id : ℕ} (g : AssetGroup)
      → find_group id t ≡ some g
      → g.parent ≢ avoided
      → Clear t avoided g.parent
      → Clear t avoided id

module _ (u : String) (moved target : ℕ) (t : Tables) (h : IsForest t) where
  abbrev put_under : AssetGroup → AssetGroup
  put_under g = record g { parent = target }

  abbrev moved_groups : List AssetGroup
  moved_groups = update_groups (own_group u moved) put_under t.groups

  abbrev same : (g : AssetGroup) → (put_under g).id ≡ g.id
  same g = refl

  -- Another folder is found as before.
  other :
      (id : ℕ) (g : AssetGroup)
      → find_group id t.groups ≡ some g
      → id ≢ moved
      → find_group id moved_groups ≡ some g
  other id g e n = ground (
    arith,
    e,
    n,
    find_group-id id g t.groups e,
    find_group-update (own_group u moved) put_under same id t.groups,
  )

  pub clear-Rooted : {id : ℕ} → id ≢ moved → Clear t.groups moved id → Rooted moved_groups id
  clear-Rooted n (reached {id} g e z) = above' id g (other id g e n) (at_root z)
  clear-Rooted n (climbed {id} g e n' c) = above' id g (other id g e n) (clear-Rooted n' c)

  module _ (free : Rooted moved_groups target) where
    move-Rooted : {id : ℕ} → Rooted t.groups id → Rooted moved_groups id
    move-Rooted (at_root z) = at_root z
    move-Rooted (at_missing {id} p e) =
        at_missing p
          (ground (arith, e, find_group-update (own_group u moved) put_under same id t.groups))
    move-Rooted (above {id} g p e up) = elim (Bool-cases (own_group u moved g)) [
      | inl b ↦
          above (put_under g) p
            (ground (arith, e, b, find_group-update (own_group u moved) put_under same id t.groups))
            free
      | inr b ↦
          above g p
            (ground (arith, e, b, find_group-update (own_group u moved) put_under same id t.groups))
            (move-Rooted up)
    ]

    pub move-IsForest : target < t.next_id → IsForest (record t { groups = moved_groups })
    move-IsForest l = record {
      rooted = λ id. move-Rooted (h.rooted id);
      keyed = IsKeyed-update (own_group u moved) put_under same t.groups h.keyed;
      counted =
          All-Counted-update (own_group u moved) put_under same t.next_id t.groups
            (λ g c. (c.0, c.1, l)) h.counted;
      first = h.first;
    }
