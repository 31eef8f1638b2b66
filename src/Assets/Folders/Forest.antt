-- ===== src/Assets/Folders/Forest.antt =====
-- Where the way up from a folder ends, and what the changes of the table do to it.
use titan_explorer.Base.{
  ℕ, zero, suc, ◌≡◌, ◌≢◌, refl, sym, subst, ◌∙◌, Bool, Option, none, some, List, [], ◌∷◌, ◌<◌, ◌⊎◌,
  inl, inr, keep, arith, if◌then◌else◌, Bool-cases, Option-cases,
}
use titan_explorer.Assets.Types.{AssetGroup}
use titan_explorer.Assets.Rows.{find_group, update_groups}

-- The way up from `id` ends: at the root, where a folder is missing, or above its parent.
pub data Rooted (t : List AssetGroup) : ℕ → Type 0 where
  at_root : {id : ℕ} → id ≡ 0 → Rooted t id
  at_missing : {id : ℕ} → 0 < id → find_group id t ≡ none → Rooted t id
  above :
      {id : ℕ} (g : AssetGroup)
      → 0 < id
      → find_group id t ≡ some g
      → Rooted t g.parent
      → Rooted t id

pub find_group-id :
    (id : ℕ) (g : AssetGroup) (t : List AssetGroup) → find_group id t ≡ some g → g.id ≡ id
unfolding find_group
find_group-id id g [] e = ground (arith, e)
find_group-id id g (r ∷ t) e = ground (arith, e, find_group-id id g t)

pub zero_or : (n : ℕ) → (n ≡ 0) ⊎ (0 < n)
zero_or zero = inl refl
zero_or (suc n) = inr (omega arith)

pub above' :
    {t : List AssetGroup} (id : ℕ) (g : AssetGroup)
    → find_group id t ≡ some g
    → Rooted t g.parent
    → Rooted t id
above' id g e h = elim (zero_or id) [ inl z ↦ at_root z | inr p ↦ above g p e h ]

pub missing' : {t : List AssetGroup} (id : ℕ) → find_group id t ≡ none → Rooted t id
missing' id e = elim (zero_or id) [ inl z ↦ at_root z | inr p ↦ at_missing p e ]

-- A row whose id is not found elsewhere.
abbrev pub IsKeyed : List AssetGroup → Type 0
IsKeyed [] = Unit
IsKeyed (g ∷ t) = (find_group g.id t ≡ none) × IsKeyed t

-- Each row that is found has the parent that it had.
abbrev pub Follows : List AssetGroup → List AssetGroup → Type 0
Follows t t' =
    (id : ℕ)
    → (find_group id t' ≡ none)
      ⊎ ((g : AssetGroup) × (g' : AssetGroup) × (find_group id t ≡ some g)
          × (find_group id t' ≡ some g')
          × (g'.parent ≡ g.parent))

pub Follows-Rooted : {t t' : List AssetGroup} → Follows t t' → {id : ℕ} → Rooted t id → Rooted t' id
Follows-Rooted f (at_root z) = at_root z
Follows-Rooted f (at_missing {id} p e) = elim (f id) [
  | inl n ↦ at_missing p n
  | inr (g, g', e', er, par) ↦ absurd (ground (arith, e, e'))
]
Follows-Rooted {t' = t'} f (above {id} g p e h) =
    let up = Follows-Rooted f h in
    elim (f id) [
      | inl n ↦ at_missing p n
      | inr (r, r', er, er', par) ↦
          let same : g.parent ≡ r'.parent = ground (arith, e, er, par) in
          above r' p er' (subst (Rooted t') same up)
    ]

-- Rows are deleted.
pub find_group-keep-none :
    (p : AssetGroup → Bool) (id : ℕ) (t : List AssetGroup)
    → find_group id t ≡ none
    → find_group id (keep p t) ≡ none
unfolding find_group
find_group-keep-none p id [] e = refl
find_group-keep-none p id (g ∷ t) e = ground (arith, e, find_group-keep-none p id t)

find_group-keep :
    (p : AssetGroup → Bool) (id : ℕ) (t : List AssetGroup)
    → IsKeyed t
    → find_group id (keep p t) ≢ none
    → find_group id (keep p t) ≡ find_group id t
unfolding find_group
find_group-keep p id [] k n = refl
find_group-keep p id (g ∷ t) (e, k) n =
    let rest : find_group id (keep p t) ≢ none → find_group id (keep p t) ≡ find_group id t =
      find_group-keep p id t k in
    ground (arith, e, n, rest, find_group-keep-none p id t)

pub keep-Follows : (p : AssetGroup → Bool) (t : List AssetGroup) → IsKeyed t → Follows t (keep p t)
keep-Follows p t k id = elim (Option-cases (find_group id (keep p t))) [
  | inl n ↦ inl n
  | inr (g, e) ↦
      let same = find_group-keep p id t k (λ n. ground (arith, e, n)) in
      inr (g, g, sym same ∙ e, e, refl)
]

pub IsKeyed-keep : (p : AssetGroup → Bool) (t : List AssetGroup) → IsKeyed t → IsKeyed (keep p t)
IsKeyed-keep p [] k = tt
IsKeyed-keep p (g ∷ t) (e, k) = elim (Bool-cases (p g)) [
  | inl b ↦ rw b (find_group-keep-none p g.id t e, IsKeyed-keep p t k)
  | inr b ↦ rw b (IsKeyed-keep p t k)
]

-- Rows are changed, but not their ids.
module _ (p : AssetGroup → Bool) (f : AssetGroup → AssetGroup)
    (same : (g : AssetGroup) → (f g).id ≡ g.id) where
  abbrev changed : AssetGroup → AssetGroup
  changed g = if p g then f g else g

  abbrev changed? : Option AssetGroup → Option AssetGroup
  changed? none = none
  changed? (some g) = some (changed g)

  pub find_group-update :
      (id : ℕ) (t : List AssetGroup)
      → find_group id (update_groups p f t) ≡ changed? (find_group id t)
  unfolding find_group update_groups
  find_group-update id [] = refl
  find_group-update id (g ∷ t) = ground (arith, same g, find_group-update id t)

  pub IsKeyed-update : (t : List AssetGroup) → IsKeyed t → IsKeyed (update_groups p f t)
  unfolding update_groups
  IsKeyed-update [] k = tt
  IsKeyed-update (g ∷ t) (e, k) = (
    ground (arith, e, same g, find_group-update g.id t, find_group-update (f g).id t),
    IsKeyed-update t k,
  )

  pub update-Follows :
      ((g : AssetGroup) → (f g).parent ≡ g.parent)
      → (t : List AssetGroup) → Follows t (update_groups p f t)
  update-Follows par t id = elim (Option-cases (find_group id t)) [
    | inl e ↦ inl (rw (find_group-update id t, e) refl)
    | inr (g, e) ↦ inr (g, changed g, e, rw (find_group-update id t, e) refl, ground (arith, par g))
  ]
