-- ===== src/Order/Store/Evolve.antt =====
-- How an order table changes over time: rows keep their identity and move along the edges of the
-- status graph, new rows stand at the end, and only unpaid rows go.
use titan_explorer.Base.{◌≡◌, refl, ◌∙◌, List, [], ◌∷◌, All, ◌⊎◌, inl, inr}
use titan_explorer.Order.Types.{
  OrderStatus, created, paid, done, expired, failed, upgrade, renewal, abandoned, termination,
  Order,
}

-- The status graph.
infix 40 ◌⟶◌ ◌⟶*◌
pub data ◌⟶◌ : OrderStatus → OrderStatus → Type 0 where
  pay : created ⟶ paid
  start : paid ⟶ done
  fail : paid ⟶ failed
  renew : done ⟶ renewal
  renewed : renewal ⟶ done
  replace : done ⟶ abandoned
  keep_old : abandoned ⟶ done
  upgraded : upgrade ⟶ done
  end_early : done ⟶ termination
  expire : {s : OrderStatus} → s ⟶ expired

pub data ◌⟶*◌ (s : OrderStatus) : OrderStatus → Type 0 where
  here : s ⟶* s
  next : {t u : OrderStatus} → s ⟶* t → t ⟶ u → s ⟶* u

pub ⟶*_trans : {s t u : OrderStatus} → s ⟶* t → t ⟶* u → s ⟶* u
⟶*_trans p here = p
⟶*_trans p (next q e) = next (⟶*_trans p q) e

-- A later state of the same row.
pub record Descends (o o' : Order) : Type 0 where
  pub same_id : o'.id ≡ o.id
  pub same_account : o'.account ≡ o.account
  pub same_workspace : o'.workspace_id ≡ o.workspace_id
  pub same_cluster : o'.cluster ≡ o.cluster
  pub same_ram : o'.ram_size ≡ o.ram_size
  pub same_created_at : o'.created_at ≡ o.created_at
  pub moves : o.status ⟶* o'.status

-- A row that was inserted since: as a new order, or as the upgrade of another.
abbrev pub IsNew : Order → Type 0
IsNew o = (created ⟶* o.status) ⊎ (upgrade ⟶* o.status)

pub data Evolve : List Order → List Order → Type 0 where
  fresh : {t : List Order} → All IsNew t → Evolve [] t
  kept : {o o' : Order} {t t' : List Order} → Descends o o' → Evolve t t' → Evolve (o ∷ t) (o' ∷ t')
  dropped : {o : Order} {t t' : List Order} → o.status ≡ created → Evolve t t' → Evolve (o ∷ t) t'

pub Descends-refl : (o : Order) → Descends o o
Descends-refl o = record {
  same_id = refl;
  same_account = refl;
  same_workspace = refl;
  same_cluster = refl;
  same_ram = refl;
  same_created_at = refl;
  moves = here;
}

Descends-trans : {a b c : Order} → Descends a b → Descends b c → Descends a c
Descends-trans p q = record {
  same_id = q.same_id ∙ p.same_id;
  same_account = q.same_account ∙ p.same_account;
  same_workspace = q.same_workspace ∙ p.same_workspace;
  same_cluster = q.same_cluster ∙ p.same_cluster;
  same_ram = q.same_ram ∙ p.same_ram;
  same_created_at = q.same_created_at ∙ p.same_created_at;
  moves = ⟶*_trans p.moves q.moves;
}

pub Evolve-refl : (t : List Order) → Evolve t t
Evolve-refl [] = fresh tt
Evolve-refl (o ∷ t) = kept (Descends-refl o) (Evolve-refl t)

-- No edge leads back to `created`.
⟶-created : {s t : OrderStatus} → s ⟶ t → t ≡ created → ⊥
⟶-created pay e = cc
⟶-created start e = cc
⟶-created fail e = cc
⟶-created renew e = cc
⟶-created renewed e = cc
⟶-created replace e = cc
⟶-created keep_old e = cc
⟶-created upgraded e = cc
⟶-created end_early e = cc
⟶-created expire e = cc

⟶*-created : {s t : OrderStatus} → s ⟶* t → t ≡ created → s ≡ created
⟶*-created here e = e
⟶*-created (next p q) e = absurd (⟶-created q e)

Descends-IsNew : {o o' : Order} → IsNew o → Descends o o' → IsNew o'
Descends-IsNew (inl p) d = inl (⟶*_trans p d.moves)
Descends-IsNew (inr p) d = inr (⟶*_trans p d.moves)

Evolve-fresh : {t t' : List Order} → Evolve t t' → All IsNew t → All IsNew t'
Evolve-fresh (fresh f) n = f
Evolve-fresh (kept d e) (n, ns) = (Descends-IsNew n d, Evolve-fresh e ns)
Evolve-fresh (dropped c e) (n, ns) = Evolve-fresh e ns

pub Evolve-trans : {a b c : List Order} → Evolve a b → Evolve b c → Evolve a c
Evolve-trans (fresh n) q = fresh (Evolve-fresh q n)
Evolve-trans (kept d e) (kept d' e') = kept (Descends-trans d d') (Evolve-trans e e')
Evolve-trans (kept d e) (dropped c e') = dropped (⟶*-created d.moves c) (Evolve-trans e e')
Evolve-trans (dropped c e) q = dropped c (Evolve-trans e q)
