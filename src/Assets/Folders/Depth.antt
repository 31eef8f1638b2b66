-- ===== src/Assets/Folders/Depth.antt =====
-- How deep a folder lies: at most as deep as there are folders.
use titan_explorer.Base.{
  ℕ, suc, ◌+◌, ◌≤◌, ◌≡◌, refl, ◌∙◌, ap, some, List, [], ◌∷◌, length, arith, if◌then◌else◌, ◌==◌,
  leb, Bool-cases, inl, inr,
}
use titan_explorer.Assets.Types.{AssetGroup}
use titan_explorer.Assets.Rows.{find_group}
use titan_explorer.Assets.Folders.Forest.{Rooted, at_root, at_missing, above, find_group-id}

-- How many folders the way up passes.
unfoldable pub depth : {t : List AssetGroup} {id : ℕ} → Rooted t id → ℕ
depth (at_root z) = 0
depth (at_missing p e) = 0
depth (above g p e up) = suc (depth up)

-- There is one way up.
pub depth_eq :
    {t : List AssetGroup} {i j : ℕ} (r : Rooted t i) (r' : Rooted t j) → i ≡ j → depth r ≡ depth r'
unfolding depth
depth_eq (at_root z) (at_root z') q = refl
depth_eq (at_root z) (at_missing p e) q = refl
depth_eq (at_root z) (above g p e up) q = absurd (omega arith)
depth_eq (at_missing p e) (at_root z) q = refl
depth_eq (at_missing p e) (at_missing p' e') q = refl
depth_eq (at_missing p e) (above g p' e' up) q = absurd (ground (arith, q, e, e'))
depth_eq (above g p e up) (at_root z) q = absurd (omega arith)
depth_eq (above g p e up) (at_missing p' e') q = absurd (ground (arith, q, e, e'))
depth_eq (above g p e up) (above g' p' e' up') q =
    ap suc (depth_eq up up' (ground (arith, q, e, e')))

module _ (t : List AssetGroup) (rooted : (id : ℕ) → Rooted t id) where
  abbrev pub level : AssetGroup → ℕ
  level g = depth (rooted g.id)

  -- The folders of `l` that lie at most `k` deep.
  up_to : ℕ → List AssetGroup → ℕ
  unfolding depth
  up_to k [] = 0
  up_to k (g ∷ l) = (if leb (level g) k then 1 else 0) + up_to k l

  up_to-le-length : (k : ℕ) (l : List AssetGroup) → up_to k l ≤ length l
  unfolding up_to
  up_to-le-length k [] = omega arith
  up_to-le-length k (g ∷ l) = ground (arith, up_to-le-length k l)

  up_to_mono : (k : ℕ) (l : List AssetGroup) → up_to k l ≤ up_to (suc k) l
  unfolding up_to
  up_to_mono k [] = omega arith
  up_to_mono k (g ∷ l) = ground (arith, up_to_mono k l)

  -- A folder at a level counts there.
  up_to-step :
      (k id : ℕ) (g : AssetGroup) (l : List AssetGroup)
      → find_group id l ≡ some g
      → level g ≡ suc k
      → suc (up_to k l) ≤ up_to (suc k) l
  unfolding up_to find_group
  up_to-step k id g [] e d = absurd (ground (arith, e))
  up_to-step k id g (r ∷ l) e d = elim (Bool-cases (r.id == id)) [
    | inl b ↦
        let same : r ≡ g = ground (arith, e, b) in
        let deep : level r ≡ suc k = ap level same ∙ d in ground (arith, deep, up_to_mono k l)
    | inr b ↦
        let rest : suc (up_to k l) ≤ up_to (suc k) l =
          up_to-step k id g l (ground (arith, e, b)) d in
        ground (arith, rest)
  ]

  -- The way up of a folder has one at each level.
  depth-le-up_to : {id : ℕ} (r : Rooted t id) → depth r ≤ up_to (depth r) t
  unfolding depth
  depth-le-up_to (at_root z) = omega arith
  depth-le-up_to (at_missing p e) = omega arith
  depth-le-up_to (above {id} g p e up) =
      let deep : level g ≡ suc (depth up) =
        depth_eq (rooted g.id) (above g p e up) (find_group-id id g t e) in
      omega (arith, depth-le-up_to up, up_to-step (depth up) id g t e deep)

  pub depth-le-length : {id : ℕ} (r : Rooted t id) → depth r ≤ length t
  depth-le-length r = omega (arith, depth-le-up_to r, up_to-le-length (depth r) t)
