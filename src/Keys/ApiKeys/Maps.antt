-- ===== src/Keys/ApiKeys/Maps.antt =====
-- Go's maps with string keys, as association lists.
use titan_explorer.Base.{
  suc, ◌≤◌, ◌≡◌, refl, subst, String, Bool, true, false, Option, none, some, List, [], ◌∷◌, length,
  arith, if◌then◌else◌, str_eq, eq_iff,
}

module _ {V : Type 0} where
  unfoldable pub lookup : String → List (String × V) → Option V
  lookup k [] = none
  lookup k (p ∷ m) = if str_eq p.0 k then some p.1 else lookup k m

  -- `m[k] = v`
  unfoldable pub put : String → V → List (String × V) → List (String × V)
  put k v [] = (k, v) ∷ []
  put k v (p ∷ m) = if str_eq p.0 k then (k, v) ∷ m else p ∷ put k v m

  -- `delete(m, k)`
  unfoldable pub delete : String → List (String × V) → List (String × V)
  delete k [] = []
  delete k (p ∷ m) = if str_eq p.0 k then delete k m else p ∷ delete k m

  pub lookup-put :
      (k k' : String) (v : V) (m : List (String × V))
      → lookup k' (put k v m) ≡ (if str_eq k k' then some v else lookup k' m)
  unfolding lookup put
  lookup-put k k' v [] = refl
  lookup-put k k' v (p ∷ m) =
      ground (arith, lookup-put k k' v m, eq_iff p.0 k, eq_iff p.0 k', eq_iff k k')

  pub length-put :
      (k : String) (v : V) (m : List (String × V)) → length (put k v m) ≤ suc (length m)
  unfolding put
  length-put k v [] = omega arith
  length-put k v (p ∷ m) = ground (arith, length-put k v m)

  pub length-delete : (k : String) (m : List (String × V)) → length (delete k m) ≤ length m
  unfolding delete
  length-delete k [] = omega arith
  length-delete k (p ∷ m) = ground (arith, length-delete k m)

  -- No name stands twice.
  abbrev pub IsDistinct : List (String × V) → Type 0
  IsDistinct [] = Unit
  IsDistinct (p ∷ m) = (lookup p.0 m ≡ none) × IsDistinct m

  pub put-IsDistinct :
      (k : String) (v : V) (m : List (String × V)) → IsDistinct m → IsDistinct (put k v m)
  unfolding put lookup
  put-IsDistinct k v [] d = (refl, tt)
  put-IsDistinct k v (p ∷ m) (d, ds) = at_head (str_eq p.0 k) refl (put-IsDistinct k v m ds)
    where
      at_head :
          (b : Bool)
          → str_eq p.0 k ≡ b
          → IsDistinct (put k v m)
          → IsDistinct (if b then (k, v) ∷ m else p ∷ put k v m)
      at_head true e rest = (subst (λ n. lookup n m ≡ none) ((eq_iff p.0 k).0 e) d, ds)
      at_head false e rest =
          (ground (arith, e, d, lookup-put k p.0 v m, eq_iff p.0 k, eq_iff k p.0), rest)

  pub lookup-delete :
      (k k' : String) (m : List (String × V))
      → lookup k' (delete k m) ≡ (if str_eq k k' then none else lookup k' m)
  unfolding lookup delete
  lookup-delete k k' [] = ground arith
  lookup-delete k k' (p ∷ m) =
      ground (arith, lookup-delete k k' m, eq_iff p.0 k, eq_iff p.0 k', eq_iff k k')

  pub delete-IsDistinct :
      (k : String) (m : List (String × V)) → IsDistinct m → IsDistinct (delete k m)
  unfolding delete
  delete-IsDistinct k [] d = tt
  delete-IsDistinct k (p ∷ m) (d, ds) = at_head (str_eq p.0 k) (delete-IsDistinct k m ds)
    where
      at_head :
          (b : Bool)
          → IsDistinct (delete k m)
          → IsDistinct (if b then delete k m else p ∷ delete k m)
      at_head true rest = rest
      at_head false rest = (ground (arith, d, lookup-delete k p.0 m), rest)

  -- The entries in any order: Go ranges over a map in no fixed order.
  unfoldable pub has_value : (V → Bool) → List (String × V) → Bool
  has_value f [] = false
  has_value f (p ∷ m) = if f p.1 then true else has_value f m

  pub has_value-put :
      (f : V → Bool) (k : String) (v : V) (m : List (String × V))
      → f v ≡ true
      → has_value f (put k v m) ≡ true
  unfolding has_value put
  has_value-put f k v [] e = ground (arith, e)
  has_value-put f k v (p ∷ m) e = ground (arith, e, has_value-put f k v m e)
