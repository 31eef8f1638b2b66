-- ===== src/Order/Run/Payment.antt =====
-- `checkOrderPaid`: only what the chain reports as active is paid.
use titan_explorer.Base.Program
use titan_explorer.Base.{
  ℕ, suc, ◌≡◌, refl, sym, ap, subst, ◌∙◌, true, false, Option, none, some, List, [], ◌∷◌, All,
  arith, ◌⊎◌, inl, inr, Bool-cases, Option-cases,
}
use titan_explorer.Base.Int.{pos, wrap64}
use titan_explorer.Order.Types.{created, paid, Order, TokenOrder}
use titan_explorer.Order.Prog.{Cmd, for_each}
use titan_explorer.Order.Store.{Oracle, answer, effect, write, update_order_info, has_id_status}
use titan_explorer.Order.Store.Rows.{
  Rows, Rows-refl, Rows-map, Updated, update_where-Rows, load_order_by_id-id, has_id_status-eq,
}
use titan_explorer.Order.Manager.{is_active, hour_duration, paid_row, pay_one, check_order_paid}
use titan_explorer.Order.Run.{World, after, run}
use titan_explorer.Order.Run.Bind.{Relates, for_each-Relates, asked, for_chain_orders-Rows}

-- `o'` is `o` paid for as the chain's order says: an active one with its id.
pub record IsPaid (x : TokenOrder) (o o' : Order) : Type 0 where
  pub reported : is_active x.status ≡ true
  pub same_id : x.id ≡ o.id
  pub was : o.status ≡ created
  pub now : o'.status ≡ paid
  pub cpu : o'.cpu_cores ≡ pos x.cpu
  pub storage : o'.storage_size ≡ pos x.disk
  pub hours : o'.duration ≡ hour_duration x
  pub funds : o'.price ≡ wrap64 (pos x.locked_funds)

-- Some element of a list.
abbrev pub Some : (TokenOrder → Type 0) → List TokenOrder → Type 0
Some P [] = ⊥
Some P (x ∷ xs) = P x ⊎ Some P xs

-- A row that is as it was, or was paid for as one of the chain's orders says.
abbrev pub Pays : List TokenOrder → Order → Order → Type 0
Pays xs o o' = (o' ≡ o) ⊎ Some (λ x. IsPaid x o o') xs

Some-IsPaid-was :
    (xs : List TokenOrder) (o o' : Order)
    → Some (λ x. IsPaid x o o') xs
    → (o.status ≡ created) × (o'.status ≡ paid)
Some-IsPaid-was [] o o' h = absurd h
Some-IsPaid-was (x ∷ xs) o o' (inl h) = (h.was, h.now)
Some-IsPaid-was (x ∷ xs) o o' (inr h) = Some-IsPaid-was xs o o' h

-- A row is paid for once.
Pays-trans : (xs : List TokenOrder) (x y z : Order) → Pays xs x y → Pays xs y z → Pays xs x z
Pays-trans xs x y z (inl p) q = subst (λ u. Pays xs u z) p q
Pays-trans xs x y z (inr p) (inl q) = inr (subst (λ u. Some (λ t. IsPaid t x u) xs) (sym q) p)
Pays-trans xs x y z (inr p) (inr q) =
    absurd (not_twice (Some-IsPaid-was xs x y p).1 (Some-IsPaid-was xs y z q).0)
  where
    not_twice : y.status ≡ paid → y.status ≡ created → ⊥
    not_twice e f = cc

-- The table after one step of the loop.
module _ (w : Oracle) (x : TokenOrder) (s : World) where
  pay_inactive : is_active x.status ≡ false → (run w (pay_one x) s).1.orders ≡ s.orders
  unfolding pay_one Program.run
  pay_inactive e = ground (arith, e)

  pay_missing :
      is_active x.status ≡ true
      → answer w s.tick (Cmd.load_order_by_id x.id) s.orders ≡ none
      → (run w (pay_one x) s).1.orders ≡ s.orders
  unfolding pay_one Program.run after effect write
  pay_missing e f = ground (arith, e, f)

  pay_written :
      (o : Order)
      → is_active x.status ≡ true
      → answer w s.tick (Cmd.load_order_by_id x.id) s.orders ≡ some o
      → (run w (pay_one x) s).1.orders
        ≡ effect w (suc s.tick) (Cmd.update_order_info (paid_row x o) created) s.orders
  unfolding pay_one Program.run after effect write
  pay_written o e f = ground (arith, e, f)

  write-IsPaid :
      (n : ℕ) (o : Order) (t : List Order)
      → is_active x.status ≡ true
      → o.id ≡ x.id
      → Rows
          (λ a b. (b ≡ a) ⊎ IsPaid x a b)
          t
          (effect w n (Cmd.update_order_info (paid_row x o) created) t)
  unfolding effect write update_order_info paid_row
  write-IsPaid n o t active same = elim (Bool-cases (w.fails n)) [
    | inl e ↦ rw e (Rows-refl t (λ a. inl refl))
    | inr e ↦ rw e (Rows-map (update_where-Rows _ _ t) paid_or_not)
  ]
    where
      paid_or_not :
          (a b : Order)
          → Updated
              (has_id_status o.id created)
              (λ a. record a {
                status = paid;
                cpu_cores = pos x.cpu;
                storage_size = pos x.disk;
                duration = hour_duration x;
                price = wrap64 (pos x.locked_funds);
                expired_at = (paid_row x o).expired_at;
                updated_at = w.clock n;
              })
              a
              b
          → (b ≡ a) ⊎ IsPaid x a b
      paid_or_not a b (inl e) = inl e
      paid_or_not a b (inr (hit, e)) =
          let (same_row, was) = has_id_status-eq o.id created a hit in
          inr (record {
            reported = active;
            same_id = sym (same_row ∙ same);
            was = was;
            now = ap (λ r. r.status) e;
            cpu = ap (λ r. r.cpu_cores) e;
            storage = ap (λ r. r.storage_size) e;
            hours = ap (λ r. r.duration) e;
            funds = ap (λ r. r.price) e;
          })

  answer-id :
      {o : Order} → answer w s.tick (Cmd.load_order_by_id x.id) s.orders ≡ some o → o.id ≡ x.id
  unfolding answer
  answer-id {o} e = ground (arith, load_order_by_id-id x.id s.orders {o = o})

  pay_one-Rows : Rows (λ a b. (b ≡ a) ⊎ IsPaid x a b) s.orders (run w (pay_one x) s).1.orders
  pay_one-Rows = elim (Bool-cases (is_active x.status)) [
    | inr e ↦ rw (pay_inactive e) (Rows-refl s.orders (λ a. inl refl))
    | inl e ↦ elim (Option-cases (answer w s.tick (Cmd.load_order_by_id x.id) s.orders)) [
      | inl f ↦ rw (pay_missing e f) (Rows-refl s.orders (λ a. inl refl))
      | inr (o, f) ↦ rw (pay_written o e f) (write-IsPaid (suc s.tick) o s.orders e (answer-id f))
    ]
  ]

-- Each step relates the rows as the whole list does.
steps :
    (w : Oracle) (all xs : List TokenOrder)
    → ((x : TokenOrder) (o o' : Order)
        → Some (λ y. y ≡ x) xs
        → IsPaid x o o'
        → Some (λ x. IsPaid x o o') all)
    → All (λ x. Relates w (Pays all) (pay_one x)) xs
steps w all [] h = tt
steps w all (x ∷ xs) h = (
  λ s. Rows-map (pay_one-Rows w x s) (λ o o' d. widen o o' d),
  steps w all xs (λ y o o' m p. h y o o' (inr m) p),
)
  where
    widen : (o o' : Order) → (o' ≡ o) ⊎ IsPaid x o o' → Pays all o o'
    widen o o' (inl e) = inl e
    widen o o' (inr p) = inr (h x o o' (inl refl) p)

Some-IsPaid :
    (xs : List TokenOrder) (x : TokenOrder) (o o' : Order)
    → Some (λ y. y ≡ x) xs
    → IsPaid x o o'
    → Some (λ x. IsPaid x o o') xs
Some-IsPaid [] x o o' m p = absurd m
Some-IsPaid (y ∷ xs) x o o' (inl e) p = inl (subst (λ z. IsPaid z o o') (sym e) p)
Some-IsPaid (y ∷ xs) x o o' (inr m) p = inr (Some-IsPaid xs x o o' m p)

pay_all-Rows : (w : Oracle) (xs : List TokenOrder) → Relates w (Pays xs) (for_each pay_one xs)
pay_all-Rows w xs =
    for_each-Relates w (Pays xs) (λ o. inl refl) (Pays-trans xs) pay_one xs
      (steps w xs xs (Some-IsPaid xs))

-- What the chain answers the pass: the orders that it asks about.
abbrev pub chain_answer : Option (List TokenOrder) → List TokenOrder
chain_answer none = []
chain_answer (some xs) = xs

-- One pass over the orders that wait for payment changes an order only if the chain's answer holds
-- an active order with its id; the row was then created and becomes paid, with the cores, disk,
-- hours and funds of the chain's order. This holds whatever fails, a crash in the loop included.
pub check_order_paid_only_active :
    (w : Oracle) (s : World)
    → Rows
        (Pays (chain_answer (w.chain (suc s.tick) (asked created s))))
        s.orders
        (run w check_order_paid s).1.orders
unfolding check_order_paid
check_order_paid_only_active w s =
    for_chain_orders-Rows w _ created pay_one s (λ o. inl refl) (λ xs e. rw e (pay_all-Rows w xs))
