-- ===== src/Assets/Folders/Shape.antt =====
-- The shape of the folders' table: a forest, whose ids and parents the table has counted.
use titan_explorer.Base.{
  ℕ, suc, ◌≤◌, ◌≡◌, refl, subst, String, Bool, none, some, List, [], ◌∷◌, ◌++◌, ◌<◌, inl, inr, All,
  keep, arith, if◌then◌else◌, ◌==◌, Bool-cases,
}
use titan_explorer.Assets.Types.{AssetGroup, Tables}
use titan_explorer.Assets.Rows.{find_group, update_groups}
use titan_explorer.Assets.Store.{inserted}
use titan_explorer.Assets.Folders.Forest.{
  Rooted, at_root, at_missing, above, Follows-Rooted, keep-Follows, IsKeyed, IsKeyed-keep,
  IsKeyed-update, update-Follows,
}

abbrev pub Counted : ℕ → AssetGroup → Type 0
Counted n g = (0 < g.id) × (g.id < n) × (g.parent < n)

-- No folder is inside itself, however deep: the way up from every folder ends.
pub record IsForest (t : Tables) : Type 0 where
  pub rooted : (id : ℕ) → Rooted t.groups id
  pub keyed : IsKeyed t.groups
  pub counted : All (Counted t.next_id) t.groups
  pub first : 0 < t.next_id

pub find_group-Counted :
    (n id : ℕ) (g : AssetGroup) (t : List AssetGroup)
    → All (Counted n) t
    → find_group id t ≡ some g
    → Counted n g
unfolding find_group
find_group-Counted n id g [] a e = ground (arith, e)
find_group-Counted n id g (r ∷ t) (c, a) e = elim (Bool-cases (r.id == id)) [
  | inl b ↦ let same : r ≡ g = ground (arith, e, b) in subst (Counted n) same c
  | inr b ↦ find_group-Counted n id g t a (ground (arith, e, b))
]

-- An id that was not given yet is not found.
find_group-new :
    (n id : ℕ) (t : List AssetGroup) → All (Counted n) t → n ≤ id → find_group id t ≡ none
unfolding find_group
find_group-new n id [] a h = refl
find_group-new n id (g ∷ t) (c, a) h = ground (arith, c, h, find_group-new n id t a h)

All-Counted-keep :
    (n : ℕ) (p : AssetGroup → Bool) (t : List AssetGroup)
    → All (Counted n) t
    → All (Counted n) (keep p t)
All-Counted-keep n p [] a = tt
All-Counted-keep n p (g ∷ t) (c, a) = elim (Bool-cases (p g)) [
  | inl b ↦ rw b (c, All-Counted-keep n p t a)
  | inr b ↦ rw b (All-Counted-keep n p t a)
]

pub keep-IsForest :
    (p : AssetGroup → Bool) (t : Tables)
    → IsForest t
    → IsForest (record t { groups = keep p t.groups })
keep-IsForest p t h = record {
  rooted = λ id. Follows-Rooted (keep-Follows p t.groups h.keyed) (h.rooted id);
  keyed = IsKeyed-keep p t.groups h.keyed;
  counted = All-Counted-keep t.next_id p t.groups h.counted;
  first = h.first;
}

module _ (p : AssetGroup → Bool) (f : AssetGroup → AssetGroup)
    (same : (g : AssetGroup) → (f g).id ≡ g.id) where
  pub All-Counted-update :
      (n : ℕ) (t : List AssetGroup)
      → ((g : AssetGroup) → Counted n g → Counted n (f g))
      → All (Counted n) t
      → All (Counted n) (update_groups p f t)
  unfolding update_groups
  All-Counted-update n [] k a = tt
  All-Counted-update n (g ∷ t) k (c, a) = elim (Bool-cases (p g)) [
    | inl b ↦ rw b (k g c, All-Counted-update n t k a)
    | inr b ↦ rw b (c, All-Counted-update n t k a)
  ]

  pub update-IsForest :
      ((g : AssetGroup) → (f g).parent ≡ g.parent)
      → (t : Tables) → IsForest t
      → IsForest (record t { groups = update_groups p f t.groups })
  update-IsForest par t h = record {
    rooted = λ id. Follows-Rooted (update-Follows p f same par t.groups) (h.rooted id);
    keyed = IsKeyed-update p f same t.groups h.keyed;
    counted = All-Counted-update t.next_id t.groups (λ g c. rw (same g, par g) c) h.counted;
    first = h.first;
  }

find_group-append :
    (id : ℕ) (r : AssetGroup) (t : List AssetGroup)
    → find_group id (t ++ (r ∷ []))
      ≡ elim (find_group id t) [ none ↦ if r.id == id then some r else none | some g ↦ some g ]
unfolding find_group
find_group-append id r [] = refl
find_group-append id r (g ∷ t) = ground (arith, find_group-append id r t)

IsKeyed-append :
    (r : AssetGroup) (t : List AssetGroup)
    → IsKeyed t
    → find_group r.id t ≡ none
    → IsKeyed (t ++ (r ∷ []))
unfolding find_group
IsKeyed-append r [] k e = (refl, tt)
IsKeyed-append r (g ∷ t) (kg, k) e =
    (ground (arith, kg, e, find_group-append g.id r t), IsKeyed-append r t k (ground (arith, e)))

All-append :
    {A : Type 0} (P : A → Type 0) (x : A) (t : List A) → All P t → P x → All P (t ++ (x ∷ []))
All-append P x [] a h = (h, tt)
All-append P x (y ∷ t) (b, a) h = (b, All-append P x t a h)

pub All-map :
    {A : Type 0} (P Q : A → Type 0) (t : List A) → ((x : A) → P x → Q x) → All P t → All Q t
All-map P Q [] f a = tt
All-map P Q (x ∷ t) f (b, a) = (f x b, All-map P Q t f a)

module _ (u name : String) (p : ℕ) (t : Tables) (h : IsForest t) (lt : p < t.next_id) where
  abbrev row : AssetGroup
  row = record {
    id = t.next_id;
    user_id = u;
    name = name;
    parent = p;
    share_status = 0;
    visit_count = 0;
  }

  abbrev grown : List AssetGroup
  grown = t.groups ++ (row ∷ [])

  -- Below the new id nothing changes.
  below-Rooted : {id : ℕ} → id < t.next_id → Rooted t.groups id → Rooted grown id
  below-Rooted l (at_root z) = at_root z
  below-Rooted l (at_missing {id} pos e) =
      at_missing pos (ground (arith, l, e, find_group-append id row t.groups))
  below-Rooted l (above {id} g pos e up) =
      above g pos (ground (arith, e, find_group-append id row t.groups))
        (below-Rooted (find_group-Counted t.next_id id g t.groups h.counted e).2 up)

  new-Rooted : {id : ℕ} → Rooted t.groups id → Rooted grown id
  new-Rooted (at_root z) = at_root z
  new-Rooted (above {id} g pos e up) =
      above g pos (ground (arith, e, find_group-append id row t.groups))
        (below-Rooted (find_group-Counted t.next_id id g t.groups h.counted e).2 up)
  new-Rooted (at_missing {id} pos e) = elim (Bool-cases (t.next_id == id)) [
    | inl b ↦
        above row pos (ground (arith, b, e, find_group-append id row t.groups))
          (below-Rooted lt (h.rooted p))
    | inr b ↦ at_missing pos (ground (arith, b, e, find_group-append id row t.groups))
  ]

  pub inserted-IsForest : IsForest (inserted u name p t)
  unfolding inserted
  inserted-IsForest = record {
    rooted = λ id. new-Rooted (h.rooted id);
    keyed =
        IsKeyed-append row t.groups h.keyed
          (find_group-new t.next_id t.next_id t.groups h.counted (omega arith));
    counted =
        All-append (Counted (suc t.next_id)) row t.groups
          (All-map (Counted t.next_id) (Counted (suc t.next_id)) t.groups (λ g c. omega arith)
            h.counted)
          (h.first, omega arith, omega arith);
    first = omega arith;
  }
