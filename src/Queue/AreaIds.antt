-- ===== src/Queue/AreaIds.antt =====
-- `PushAreaIDs` of core/oprds/redis.go: a payload that the queue does not hold is pushed, and one
-- that it holds is taken off.
use titan_explorer.Base.{
  ◌<◌, ◌≡◌, ◌≢◌, refl, sym, ap, ◌∙◌, subst, String, false, Option, none, some, List, [], ◌∷◌, ◌++◌,
  All, ltb, arith, str_eq, eq_iff, or_return-holds, if-holds, Bool-cases, inl, inr,
}
use titan_explorer.Queue.Redis.{Redis, Json, remove_all, occurrences}
use titan_explorer.Queue.Client.{AreaIdPayload, area_key, push_area_ids, get_all_area_ids}
use titan_explorer.Queue.Lists.{Encodes, nothing, entry, some_inj, marshal_inj, get_all-Encodes}

module _ {A : Type 0} (json : Json A) (p : A) (v : String) (m : json.marshal p ≡ some v) where
  differs : (x : A) (u : String) → json.marshal x ≡ some u → x ≢ p → str_eq u v ≡ false
  differs x u e n = elim (Bool-cases (str_eq u v)) [
    | inl f ↦
        absurd
          (n (marshal_inj json x p v (subst (λ w. json.marshal x ≡ some w) ((eq_iff u v).0 f) e) m))
    | inr f ↦ f
  ]

  absent :
      (ps : List A) (vs : List String)
      → Encodes json vs ps
      → All (λ x. x ≢ p) ps
      → (occurrences v vs ≡ 0) × (remove_all v vs ≡ vs)
  unfolding occurrences remove_all
  absent ps _ nothing n = (refl, refl)
  absent (x ∷ ps) _ (entry {v = u} {vs} e h) (n, ns) =
      let (none_left, same) = absent ps vs h ns in ground (arith, differs x u e n, none_left, same)

  present :
      (xs ys : List A) (vs : List String) → Encodes json vs (xs ++ p ∷ ys) → 0 < occurrences v vs
  unfolding occurrences
  present [] ys _ (entry {v = u} {vs} e h) = ground (arith, m, e, eq_iff u v)
  present (x ∷ xs) ys _ (entry {v = u} {vs} e h) = omega (arith, present xs ys vs h)

  removed :
      (ps : List A) (vs : List String)
      → Encodes json vs ps
      → (qs : List A) × Encodes json (remove_all v vs) qs × All (λ x. x ≢ p) qs
  unfolding remove_all
  removed ps _ nothing = ([], nothing, tt)
  removed (x ∷ ps) _ (entry {v = u} {vs} e h) =
      let (qs, k, ns) = removed ps vs h in
      if-holds (λ l. (qs : List A) × Encodes json l qs × All (λ x. x ≢ p) qs) (str_eq u v)
        (remove_all v vs) (u ∷ remove_all v vs) (λ f. (qs, k, ns))
        (λ f. (
          x ∷ qs,
          entry e k,
          (λ same. ground (arith, f, eq_iff u v, some_inj (sym e ∙ ap json.marshal same ∙ m)), ns),
        ))

module _ {S : Type 0} (rds : Redis S) (json : Json AreaIdPayload) (p : AreaIdPayload)
    (s s' : S) where
  absent-push :
      (ps : List AreaIdPayload)
      → Encodes json (rds.list s area_key) ps
      → All (λ x. x ≢ p) ps
      → push_area_ids rds json p s ≡ some s'
      → Encodes json (rds.list s' area_key) (p ∷ ps)
  unfolding push_area_ids
  absent-push ps h n =
      or_return-holds Ends (json.marshal p) none _ (λ e. ground (arith, e))
        λ v m.
          or_return-holds Ends (rds.lrem_all area_key v s) none _ (λ e. ground (arith, e))
            λ (k, s1) r.
              (let (left, count) = rds.lrem_all-list area_key v s s1 k r in
                let (zero_left, same) = absent json p v m ps (rds.list s area_key) h n in
                if-holds Ends (ltb 0 k) (some s1) (rds.lpush area_key v s1)
                  (λ some_left. ground (arith, some_left, count, zero_left))
                  (λ _ e.
                    subst (λ l. Encodes json l (p ∷ ps))
                      (sym (rds.lpush-list area_key v s1 s' e ∙ ap (λ l. v ∷ l) (left ∙ same)))
                      (entry m h)))
    where
      Ends : Option S → Type 0
      Ends o = o ≡ some s' → Encodes json (rds.list s' area_key) (p ∷ ps)

  present-push :
      (xs ys : List AreaIdPayload)
      → Encodes json (rds.list s area_key) (xs ++ p ∷ ys)
      → push_area_ids rds json p s ≡ some s'
      → (qs : List AreaIdPayload) × Encodes json (rds.list s' area_key) qs × All (λ x. x ≢ p) qs
  unfolding push_area_ids
  present-push xs ys h =
      or_return-holds Ends (json.marshal p) none _ (λ e. ground (arith, e))
        λ v m.
          or_return-holds Ends (rds.lrem_all area_key v s) none _ (λ e. ground (arith, e))
            λ (k, s1) r.
              (let (left, count) = rds.lrem_all-list area_key v s s1 k r in
                let found = present json p v m xs ys (rds.list s area_key) h in
                if-holds Ends (ltb 0 k) (some s1) (rds.lpush area_key v s1)
                  (λ _ e.
                    subst Without (sym left ∙ ap (λ s2. rds.list s2 area_key) (some_inj e))
                      (removed json p v m (xs ++ p ∷ ys) (rds.list s area_key) h))
                  (λ nothing_left. ground (arith, nothing_left, count, found)))
    where
      Without : List String → Type 0
      Without l = (qs : List AreaIdPayload) × Encodes json l qs × All (λ x. x ≢ p) qs

      Ends : Option S → Type 0
      Ends o = o ≡ some s' → Without (rds.list s' area_key)

-- A payload that is not in the queue is pushed, where no call fails.
push_area_ids-absent :
    {S : Type 0} (rds : Redis S) (json : Json AreaIdPayload) (p : AreaIdPayload)
    (ps got : List AreaIdPayload) (s s' : S)
    → Encodes json (rds.list s area_key) ps
    → All (λ x. x ≢ p) ps
    → push_area_ids rds json p s ≡ some s'
    → get_all_area_ids rds json s' ≡ some got
    → got ≡ p ∷ ps
unfolding push_area_ids get_all_area_ids
push_area_ids-absent rds json p ps got s s' h n push read =
    get_all-Encodes rds json area_key s' (p ∷ ps) (absent-push rds json p s s' ps h n push) got read

-- A payload that is in the queue already is taken off when it is pushed again, where no call fails:
-- no entry of it is left.
pub push_area_ids-present :
    {S : Type 0} (rds : Redis S) (json : Json AreaIdPayload) (p : AreaIdPayload)
    (xs ys got : List AreaIdPayload) (s s' : S)
    → Encodes json (rds.list s area_key) (xs ++ p ∷ ys)
    → push_area_ids rds json p s ≡ some s'
    → get_all_area_ids rds json s' ≡ some got
    → All (λ x. x ≢ p) got
unfolding push_area_ids get_all_area_ids
push_area_ids-present rds json p xs ys got s s' h push read =
    let (qs, k, n) = present-push rds json p s s' xs ys h push in
    subst (All (λ x. x ≢ p)) (sym (get_all-Encodes rds json area_key s' qs k got read)) n
