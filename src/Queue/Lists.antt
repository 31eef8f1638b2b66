-- ===== src/Queue/Lists.antt =====
-- The queues hold what was pushed and not deleted.
use titan_explorer.Base.{
  ◌≡◌, ◌≢◌, refl, sym, ap, ◌∙◌, subst, String, none, some, List, [], ◌∷◌, ◌++◌, All, arith, str_eq,
  eq_iff, or_return-holds, if-holds,
}
use titan_explorer.Queue.Redis.{Redis, Json, remove_first}
use titan_explorer.Queue.Client.{push_info, del_info, decode_all, get_all_infos}

-- The entries of a list are the encodings of these values.
pub data Encodes {A : Type 0} (json : Json A) : List String → List A → Type 0 where
  nothing : Encodes json [] []
  entry :
      {a : A} {v : String} {vs : List String} {more : List A}
      → json.marshal a ≡ some v
      → Encodes json vs more
      → Encodes json (v ∷ vs) (a ∷ more)

pub some_inj : {A : Type 0} {a b : A} → some a ≡ some b → a ≡ b
some_inj e = ground (arith, e)

-- One encoding is of one value.
pub marshal_inj :
    {A : Type 0} (json : Json A) (a b : A) (v : String)
    → json.marshal a ≡ some v
    → json.marshal b ≡ some v
    → a ≡ b
marshal_inj json a b v e f =
    ground (arith, json.unmarshal-marshal a v e, json.unmarshal-marshal b v f)

module _ {A : Type 0} {S : Type 0} (rds : Redis S) (json : Json A) where
  decode_all-Encodes :
      {vs : List String} {ps : List A} → Encodes json vs ps → decode_all rds json vs ≡ ps
  unfolding decode_all
  decode_all-Encodes nothing = refl
  decode_all-Encodes (entry {a} {v} {vs} e h) =
      ground (arith, json.unmarshal-marshal a v e, decode_all-Encodes h)

  pub get_all-Encodes :
      (key : String) (s : S) (ps : List A)
      → Encodes json (rds.list s key) ps
      → (got : List A) → get_all_infos rds json key s ≡ some got
      → got ≡ ps
  unfolding get_all_infos
  get_all-Encodes key s ps h got =
      or_return-holds (λ o. o ≡ some got → got ≡ ps) (rds.lrange key s) none _
        (λ e. ground (arith, e))
        λ res r e.
          (let read = rds.lrange-list key s res r in
            some_inj (
              sym e ∙ ap (λ l. some (decode_all rds json l)) read ∙ ap some (decode_all-Encodes h)))

  push-Encodes :
      (key : String) (s s' : S) (p : A) (ps : List A)
      → Encodes json (rds.list s key) ps
      → push_info rds json key p s ≡ some s'
      → Encodes json (rds.list s' key) (p ∷ ps)
  unfolding push_info
  push-Encodes key s s' p ps h =
      or_return-holds (λ o. o ≡ some s' → Encodes json (rds.list s' key) (p ∷ ps)) (json.marshal p)
        none _ (λ e. ground (arith, e))
        λ v m e.
          subst (λ l. Encodes json l (p ∷ ps)) (sym (rds.lpush-list key v s s' e)) (entry m h)

  remove_first-Encodes :
      (p : A) (v : String) (xs ys : List A) (vs : List String)
      → json.marshal p ≡ some v
      → All (λ x. x ≢ p) xs
      → Encodes json vs (xs ++ p ∷ ys)
      → Encodes json (remove_first v vs) (xs ++ ys)
  unfolding remove_first
  remove_first-Encodes p v [] ys _ m n (entry {v = u} {vs} e h) =
      if-holds (λ l. Encodes json l ys) (str_eq u v) vs (u ∷ remove_first v vs) (λ _. h)
        (λ f. ground (arith, m, e, f, eq_iff u v))
  remove_first-Encodes p v (x ∷ xs) ys _ m (n, ns) (entry {v = u} {vs} e h) =
      if-holds (λ l. Encodes json l (x ∷ (xs ++ ys))) (str_eq u v) vs (u ∷ remove_first v vs)
        (λ f. absurd (
          n (marshal_inj json x p v (subst (λ w. json.marshal x ≡ some w) ((eq_iff u v).0 f) e) m)))
        (λ f. entry e (remove_first-Encodes p v xs ys vs m ns h))

  del-Encodes :
      (key : String) (s s' : S) (p : A) (xs ys : List A)
      → Encodes json (rds.list s key) (xs ++ p ∷ ys)
      → All (λ x. x ≢ p) xs
      → del_info rds json key p s ≡ some s'
      → Encodes json (rds.list s' key) (xs ++ ys)
  unfolding del_info
  del-Encodes key s s' p xs ys h n =
      or_return-holds (λ o. o ≡ some s' → Encodes json (rds.list s' key) (xs ++ ys))
        (json.marshal p) none _ (λ e. ground (arith, e))
        λ v m e.
          subst (λ l. Encodes json l (xs ++ ys)) (sym (rds.lrem_one-list key v s s' e))
            (remove_first-Encodes p v xs ys (rds.list s key) m n h)

-- What is pushed on a queue is read at its head, before what was read there until then; once it is
-- deleted, what was read before is read again, where no call fails.
pub queue_push_del :
    {A : Type 0} {S : Type 0} (rds : Redis S) (json : Json A) (key : String) (p : A)
    (ps got rest : List A) (s s' s'' : S)
    → Encodes json (rds.list s key) ps
    → push_info rds json key p s ≡ some s'
    → get_all_infos rds json key s' ≡ some got
    → del_info rds json key p s' ≡ some s''
    → get_all_infos rds json key s'' ≡ some rest
    → (got ≡ p ∷ ps) × (rest ≡ ps)
queue_push_del rds json key p ps got rest s s' s'' h push read del again =
    let pushed = push-Encodes rds json key s s' p ps h push in
    let deleted = del-Encodes rds json key s' s'' p [] ps pushed tt del in
    (
      get_all-Encodes rds json key s' (p ∷ ps) pushed got read,
      get_all-Encodes rds json key s'' ps deleted rest again,
    )
