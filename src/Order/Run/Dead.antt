-- ===== src/Order/Run/Dead.antt =====
-- An order that has ended does not come back.
use titan_explorer.Base.{
  ℕ, ◌≡◌, List, [], ◌∷◌, All, ◌⊎◌, inl, inr, subst, Bool, true, false, keep, if-holds, arith,
}
use titan_explorer.Order.Types.{
  OrderStatus, created, paid, done, failed, upgrade, renewal, abandoned, expired, timeout,
  termination, Order,
}
use titan_explorer.Order.Store.{Oracle}
use titan_explorer.Order.Store.Evolve.{
  ◌⟶◌, ◌⟶*◌, here, next, pay, start, fail, renew, renewed, replace, keep_old, upgraded, end_early,
  expire, Evolve, fresh, kept, dropped,
}
use titan_explorer.Order.Run.{World, Task, serve}
use titan_explorer.Order.Run.Pool.{serve-Evolve}

abbrev pub IsDead : OrderStatus → Type 0
IsDead expired = Unit
IsDead timeout = Unit
IsDead termination = Unit
IsDead _ = ⊥

abbrev pub Has : (Order → Type 0) → List Order → Type 0
Has P [] = ⊥
Has P (o ∷ t) = P o ⊎ Has P t

-- A dead row with the same id and account.
abbrev pub IsRemains : Order → Order → Type 0
IsRemains o o' = (o'.id ≡ o.id) × (o'.account ≡ o.account) × IsDead o'.status

⟶-IsDead : {s t : OrderStatus} → s ⟶ t → IsDead s → IsDead t
⟶-IsDead pay d = absurd d
⟶-IsDead start d = absurd d
⟶-IsDead fail d = absurd d
⟶-IsDead renew d = absurd d
⟶-IsDead renewed d = absurd d
⟶-IsDead replace d = absurd d
⟶-IsDead keep_old d = absurd d
⟶-IsDead upgraded d = absurd d
⟶-IsDead end_early d = absurd d
⟶-IsDead expire d = tt

⟶*-IsDead : {s t : OrderStatus} → s ⟶* t → IsDead s → IsDead t
⟶*-IsDead here d = d
⟶*-IsDead (next p e) d = ⟶-IsDead e (⟶*-IsDead p d)

All-weaken : {P Q : Order → Type 0} (t : List Order) → ((o : Order) → P o → Q o) → All P t → All Q t
All-weaken [] f a = tt
All-weaken (o ∷ t) f (p, ps) = (f o p, All-weaken t f ps)

abbrev Stays : List Order → Order → Type 0
Stays t o = IsDead o.status → Has (IsRemains o) t

Evolve-Stays : {t t' : List Order} → Evolve t t' → All (Stays t') t
Evolve-Stays (fresh n) = tt
Evolve-Stays (kept {t} d e) = (
  λ dead. inl (d.same_id, d.same_account, ⟶*-IsDead d.moves dead),
  All-weaken t (λ o later dead. inr (later dead)) (Evolve-Stays e),
)
Evolve-Stays (dropped c e) = (λ dead. absurd (subst IsDead c dead), Evolve-Stays e)

abbrev pub is_dead : OrderStatus → Bool
is_dead expired = true
is_dead timeout = true
is_dead termination = true
is_dead _ = false

is_dead-IsDead : (s : OrderStatus) → is_dead s ≡ true → IsDead s
is_dead-IsDead expired e = tt
is_dead-IsDead timeout e = tt
is_dead-IsDead termination e = tt
is_dead-IsDead created e = ground (arith, e)
is_dead-IsDead paid e = ground (arith, e)
is_dead-IsDead done e = ground (arith, e)
is_dead-IsDead failed e = ground (arith, e)
is_dead-IsDead upgrade e = ground (arith, e)
is_dead-IsDead renewal e = ground (arith, e)
is_dead-IsDead abandoned e = ground (arith, e)

keep_dead :
    (Q : Order → Type 0) (t : List Order)
    → All (λ o. IsDead o.status → Q o) t
    → All Q (keep (λ o. is_dead o.status) t)
keep_dead Q [] a = tt
keep_dead Q (o ∷ t) (q, qs) =
    let rest = keep_dead Q t qs in
    if-holds (All Q) (is_dead o.status) (o ∷ keep (λ r. is_dead r.status) t)
      (keep (λ r. is_dead r.status) t) (λ e. (q (is_dead-IsDead o.status e), rest)) (λ _. rest)

-- Each order that is expired, timed out or terminated is still in the table later, for the same
-- account, and again in one of these statuses, whatever the service does meanwhile.
pub serve-IsDead :
    (w : Oracle) (schedule : List ℕ) (tasks : List Task) (s : World)
    → All
        (λ o. Has (IsRemains o) (serve w schedule tasks s).orders)
        (keep (λ o. is_dead o.status) s.orders)
serve-IsDead w schedule tasks s =
    keep_dead _ s.orders (Evolve-Stays (serve-Evolve w schedule tasks s))
