-- ===== src/Assets/Files/Sizes.antt =====
-- What the sizes of files add up to, and what transactions leave.
use titan_explorer.Base.{
  ◌+◌, ◌≡◌, refl, String, Bool, false, not, none, some, List, [], ◌∷◌, ◌++◌, All, arith,
  if◌then◌else◌, str_eq, eq_iff, Bool-cases, inl, inr,
}
use titan_explorer.Base.Int.{pos}
use titan_explorer.Assets.Types.{UserAsset, UserSize, Tables}
use titan_explorer.Assets.Rows.{
  of_user, find_asset, delete_asset_rows, sum_of, update_used, plus, minus, at_least_0,
}

abbrev pub owned : String → UserAsset → Bool
owned u a = str_eq a.user_id u

-- No hash and user stand twice.
abbrev pub IsKeyed : List UserAsset → Type 0
IsKeyed [] = Unit
IsKeyed (a ∷ t) = (find_asset a.hash a.user_id t ≡ none) × IsKeyed t

-- The used size of a user is the sum of the sizes of the user's files.
abbrev pub Sums : List UserAsset → UserSize → Type 0
Sums assets r = r.used_storage_size ≡ pos (sum_of (owned r.username) assets)

pub record IsBalanced (t : Tables) : Type 0 where
  pub sums : All (Sums t.assets) t.users
  pub keyed : IsKeyed t.assets

pub sum_of-append :
    (p : UserAsset → Bool) (a : UserAsset) (t : List UserAsset)
    → sum_of p (t ++ (a ∷ [])) ≡ sum_of p t + (if p a then a.total_size else 0)
unfolding sum_of
sum_of-append p a [] = omega arith
sum_of-append p a (b ∷ t) = omega (arith, sum_of-append p a t)

find_asset-append :
    (h u : String) (a : UserAsset) (t : List UserAsset)
    → find_asset h u t ≡ none
    → of_user h u a ≡ false
    → find_asset h u (t ++ (a ∷ [])) ≡ none
unfolding find_asset
find_asset-append h u a [] e n = rw n
find_asset-append h u a (b ∷ t) e n = ground (arith, find_asset-append h u a t)

pub IsKeyed-append :
    (a : UserAsset) (t : List UserAsset)
    → IsKeyed t
    → find_asset a.hash a.user_id t ≡ none
    → IsKeyed (t ++ (a ∷ []))
unfolding find_asset
IsKeyed-append a [] k e = (refl, tt)
IsKeyed-append a (b ∷ t) (kb, k) e = (
  find_asset-append b.hash b.user_id a t kb (
      ground (
        arith,
        e,
        eq_iff b.hash a.hash,
        eq_iff a.hash b.hash,
        eq_iff a.user_id b.user_id,
        eq_iff b.user_id a.user_id,
      )),
  IsKeyed-append a t k (ground (arith, e)),
)

find_asset-delete :
    (h u h' u' : String) (t : List UserAsset)
    → find_asset h u t ≡ none
    → find_asset h u (delete_asset_rows h' u' t) ≡ none
unfolding find_asset
find_asset-delete h u h' u' [] e = refl
find_asset-delete h u h' u' (b ∷ t) e = ground (arith, find_asset-delete h u h' u' t)

pub IsKeyed-delete :
    (h u : String) (t : List UserAsset) → IsKeyed t → IsKeyed (delete_asset_rows h u t)
IsKeyed-delete h u [] k = tt
IsKeyed-delete h u (b ∷ t) (kb, k) = elim (Bool-cases (not (of_user h u b))) [
  | inl e ↦ rw e (find_asset-delete b.hash b.user_id h u t kb, IsKeyed-delete h u t k)
  | inr e ↦ rw e (IsKeyed-delete h u t k)
]

delete-absent :
    (h u : String) (t : List UserAsset) → find_asset h u t ≡ none → delete_asset_rows h u t ≡ t
unfolding find_asset
delete-absent h u [] e = refl
delete-absent h u (b ∷ t) e = ground (arith, e, delete-absent h u t)

pub sum_of-delete :
    (p : UserAsset → Bool) (h u : String) (a : UserAsset) (t : List UserAsset)
    → IsKeyed t
    → find_asset h u t ≡ some a
    → sum_of p (delete_asset_rows h u t) + (if p a then a.total_size else 0) ≡ sum_of p t
unfolding find_asset sum_of
sum_of-delete p h u a [] k e = ground (arith, e)
sum_of-delete p h u a (b ∷ t) (kb, k) e = ground (
  arith,
  e,
  kb,
  sum_of-delete p h u a t k,
  delete-absent h u t,
  eq_iff b.hash h,
  eq_iff b.user_id u,
)

pub find_asset-owned :
    (h u : String) (a : UserAsset) (t : List UserAsset) → find_asset h u t ≡ some a → a.user_id ≡ u
unfolding find_asset
find_asset-owned h u a [] e = ground (arith, e)
find_asset-owned h u a (b ∷ t) e = ground (arith, e, find_asset-owned h u a t, eq_iff b.user_id u)

pub Sums-add :
    (a : UserAsset) (t : List UserAsset) (us : List UserSize)
    → All (Sums t) us
    → All (Sums (t ++ (a ∷ []))) (update_used a.user_id (plus a.total_size) us)
unfolding update_used
Sums-add a t [] h = tt
Sums-add a t (r ∷ us) (e, h) = (
  ground (
    arith,
    e,
    sum_of-append (owned r.username) a t,
    eq_iff r.username a.user_id,
    eq_iff a.user_id r.username,
  ),
  Sums-add a t us h,
)

pub Sums-delete :
    (h u : String) (a : UserAsset) (t : List UserAsset) (us : List UserSize)
    → IsKeyed t
    → find_asset h u t ≡ some a
    → All (Sums t) us
    → All
        (Sums (delete_asset_rows h u t))
        (update_used u (λ z. at_least_0 (minus a.total_size z)) us)
unfolding update_used
Sums-delete h u a t [] k f s = tt
Sums-delete h u a t (r ∷ us) k f (e, s) = (
  ground (
    arith,
    e,
    sum_of-delete (owned r.username) h u a t k f,
    find_asset-owned h u a t f,
    eq_iff r.username u,
    eq_iff a.user_id r.username,
  ),
  Sums-delete h u a t us k f s,
)
