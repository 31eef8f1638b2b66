-- ===== src/Order/Manager/Legal.antt =====
-- Every statement of the passes and of the order operations moves rows along the status graph,
-- whatever the outside answers.
use titan_explorer.Base.{
  ℕ, zero, suc, String, ◌≡◌, refl, Bool, true, false, Option, none, some, List, [], ◌∷◌, inl, inr,
  ◌⊎◌, if◌then◌else◌,
}
use titan_explorer.Base.Int.{ℤ}
use titan_explorer.Order.Types.{
  OrderStatus, created, paid, done, expired, failed, upgrade, renewal, abandoned, OrderInfoReq,
  Order, TokenOrder,
}
use titan_explorer.Order.Prog.{
  Cmd, Resp, Prog, ret, crash, call, log_error, for_each, or_skip, or_crash, ◌>>=◌,
}
use titan_explorer.Order.Store.Evolve.{
  ◌⟶◌, pay, start, fail, renew, renewed, replace, keep_old, upgraded, expire,
}
use titan_explorer.Order.Store.Legal.{LegalCmd}
use titan_explorer.Order.Manager.{
  terminate, renew_order, create_order_row, upgrade_order, create_new_order, for_chain_orders,
  paid_row, renewed_row, upgraded_row, pay_one, check_order_paid, start_one,
  create_space_from_orders, renew_one, check_order_renewal, abandon_one, check_order_abandoned,
  upgrade_one, check_order_upgrade, active_one, check_order_active, expire_one, check_order_expired,
  delete_orders, timer_round, timer2_round, rounds,
}

-- Every call of the program is legal, on every path of answers.
pub data IsLegal {A : Type 0} : Prog A → Type 0 where
  returns : (a : A) → IsLegal (ret a)
  crashes : IsLegal crash
  calls :
      {c : Cmd} {k : Resp c → Prog A}
      → LegalCmd c
      → ((r : Resp c) → IsLegal (k r))
      → IsLegal (call c k)

pub >>=-IsLegal :
    {A B : Type 0} {m : Prog A} {f : A → Prog B}
    → IsLegal m
    → ((a : A) → IsLegal (f a))
    → IsLegal (m >>= f)
>>=-IsLegal (returns a) h = h a
>>=-IsLegal crashes h = crashes
>>=-IsLegal (calls l ls) h = calls l (λ r. >>=-IsLegal (ls r) h)

pub if-IsLegal :
    {A : Type 0} (b : Bool) (p q : Prog A) → IsLegal p → IsLegal q → IsLegal (if b then p else q)
if-IsLegal true p q l m = l
if-IsLegal false p q l m = m

pub for_each-IsLegal :
    {X : Type 0} (body : X → Prog (Unit {0})) (xs : List X)
    → ((x : X) → IsLegal (body x))
    → IsLegal (for_each body xs)
unfolding for_each
for_each-IsLegal body [] h = returns tt
for_each-IsLegal body (x ∷ xs) h = >>=-IsLegal (h x) (λ _. for_each-IsLegal body xs h)

pub or_skip-IsLegal :
    {A : Type 0} (o : Option A) (f : A → Prog (Unit {0}))
    → ((a : A) → IsLegal (f a))
    → IsLegal (or_skip o f)
or_skip-IsLegal none f h = returns tt
or_skip-IsLegal (some a) f h = h a

or_crash-IsLegal :
    {A : Type 0} (o : Option A) (f : A → Prog (Unit {0}))
    → ((a : A) → IsLegal (f a))
    → IsLegal (or_crash o f)
or_crash-IsLegal none f h = crashes
or_crash-IsLegal (some a) f h = h a

ruleset legal = (
  returns, crashes, calls, if-IsLegal, for_each-IsLegal, or_skip-IsLegal, or_crash-IsLegal, pay,
  renewed, keep_old, upgraded, expire, start, fail, renew, replace, tt,
)

pub terminate-IsLegal :
    (id ws cluster : String) (s old : OrderStatus)
    → old ⟶ s
    → IsLegal (terminate id ws cluster s old)
unfolding terminate
terminate-IsLegal id ws cluster s old e = calls tt (λ _. calls tt (λ _. calls e returns))

for_chain_orders-IsLegal :
    (s : OrderStatus) (body : TokenOrder → Prog (Unit {0}))
    → ((t : TokenOrder) → IsLegal (body t))
    → IsLegal (for_chain_orders s body)
unfolding for_chain_orders
for_chain_orders-IsLegal s body h = search legal depth 12

pay_one-IsLegal : (t : TokenOrder) → IsLegal (pay_one t)
unfolding pay_one paid_row
pay_one-IsLegal t = search legal depth 12

start_one-IsLegal : (o : Order) → IsLegal (start_one o)
unfolding start_one
start_one-IsLegal o = calls tt (λ b. calls (outcome b) (λ _. returns tt))
  where
    outcome : (b : Bool) → paid ⟶ (if b then failed else done)
    outcome true = fail
    outcome false = start

terminated :
    (id ws cluster : String) (old : OrderStatus)
    → IsLegal (log_error (terminate id ws cluster expired old))
terminated id ws cluster old =
    >>=-IsLegal (terminate-IsLegal id ws cluster expired old expire) (λ _. returns tt)

renew_one-IsLegal : (t : TokenOrder) → IsLegal (renew_one t)
unfolding renew_one renewed_row
renew_one-IsLegal t = search (legal, terminated) depth 14

abandon_one-IsLegal : (t : TokenOrder) → IsLegal (abandon_one t)
unfolding abandon_one
abandon_one-IsLegal t = search legal depth 14

upgrade_one-IsLegal : (t : TokenOrder) → IsLegal (upgrade_one t)
unfolding upgrade_one upgraded_row
upgrade_one-IsLegal t = search legal depth 14

active_one-IsLegal : (t : TokenOrder) → IsLegal (active_one t)
unfolding active_one
active_one-IsLegal t = search (legal, terminated) depth 14

expire_one-IsLegal : (o : Order) → IsLegal (expire_one o)
unfolding expire_one
expire_one-IsLegal o = terminated o.id o.workspace_id o.cluster o.status

pub check_order_paid-IsLegal : IsLegal check_order_paid
unfolding check_order_paid
check_order_paid-IsLegal = for_chain_orders-IsLegal created pay_one pay_one-IsLegal

pub create_space_from_orders-IsLegal : IsLegal create_space_from_orders
unfolding create_space_from_orders
create_space_from_orders-IsLegal = search (legal, start_one-IsLegal)

pub check_order_renewal-IsLegal : IsLegal check_order_renewal
unfolding check_order_renewal
check_order_renewal-IsLegal = for_chain_orders-IsLegal renewal renew_one renew_one-IsLegal

pub check_order_abandoned-IsLegal : IsLegal check_order_abandoned
unfolding check_order_abandoned
check_order_abandoned-IsLegal = for_chain_orders-IsLegal abandoned abandon_one abandon_one-IsLegal

pub check_order_upgrade-IsLegal : IsLegal check_order_upgrade
unfolding check_order_upgrade
check_order_upgrade-IsLegal = for_chain_orders-IsLegal upgrade upgrade_one upgrade_one-IsLegal

pub check_order_active-IsLegal : IsLegal check_order_active
unfolding check_order_active
check_order_active-IsLegal = for_chain_orders-IsLegal done active_one active_one-IsLegal

pub check_order_expired-IsLegal : IsLegal check_order_expired
unfolding check_order_expired
check_order_expired-IsLegal = search (legal, expire_one-IsLegal)

pub delete_orders-IsLegal : IsLegal delete_orders
unfolding delete_orders
delete_orders-IsLegal = search legal depth 8

pub timer_round-IsLegal : IsLegal timer_round
unfolding timer_round
timer_round-IsLegal = >>=-IsLegal check_order_paid-IsLegal λ _.
    >>=-IsLegal create_space_from_orders-IsLegal λ _.
      >>=-IsLegal check_order_renewal-IsLegal
        λ _. >>=-IsLegal check_order_upgrade-IsLegal λ _. check_order_abandoned-IsLegal

pub timer2_round-IsLegal : IsLegal timer2_round
unfolding timer2_round
timer2_round-IsLegal =
    >>=-IsLegal delete_orders-IsLegal
      λ _. >>=-IsLegal check_order_expired-IsLegal λ _. check_order_active-IsLegal

pub rounds-IsLegal : (n : ℕ) (body : Prog (Unit {0})) → IsLegal body → IsLegal (rounds n body)
unfolding rounds
rounds-IsLegal zero body l = returns tt
rounds-IsLegal (suc n) body l = >>=-IsLegal l (λ _. rounds-IsLegal n body l)

create_order_row-IsLegal :
    (params : OrderInfoReq) (account id ws cluster : String) (price : ℤ) (s : OrderStatus)
    → (s ≡ created) ⊎ (s ≡ upgrade)
    → IsLegal (create_order_row params account id ws cluster price s)
unfolding create_order_row
create_order_row-IsLegal params account id ws cluster price s e = calls tt (λ now. calls e returns)

pub renew_order-IsLegal : (id : String) → IsLegal (renew_order id)
unfolding renew_order
renew_order-IsLegal id = calls renew returns

pub create_new_order-IsLegal :
    (params : OrderInfoReq) (account id : String) (price : ℤ)
    → IsLegal (create_new_order params account id price)
unfolding create_new_order
create_new_order-IsLegal params account id price =
    calls tt
      (λ cluster. create_order_row-IsLegal params account id id cluster price created (inl refl))

pub upgrade_order-IsLegal :
    (old : Order) (params : OrderInfoReq) (account id : String) (price : ℤ)
    → IsLegal (upgrade_order old params account id price)
unfolding upgrade_order
upgrade_order-IsLegal old params account id price =
    >>=-IsLegal
      (create_order_row-IsLegal params account id old.workspace_id old.cluster price upgrade
        (inr refl))
      (λ err. if-IsLegal err _ _ (returns true) (calls replace returns))

-- What a legal call is made of.
pub called :
    {A : Type 0} {c : Cmd} {k : Resp c → Prog A}
    → IsLegal (call c k)
    → LegalCmd c × ((r : Resp c) → IsLegal (k r))
called (calls l ls) = (l, ls)
