-- ===== src/Order/Handlers/Legal.antt =====
-- Every statement of the handlers moves rows along the status graph.
use titan_explorer.Base.{
  String, ◌≡◌, refl, Bool, true, false, not, Option, none, some, ℕ, if◌then◌else◌,
}
use titan_explorer.Order.Types.{Order, OrderInfoReq, done, status_eq}
use titan_explorer.Order.Prog.{Prog}
use titan_explorer.Order.Store.Evolve.{end_early}
use titan_explorer.Order.Store.Legal.{status_eq_sound}
use titan_explorer.Order.Manager.Legal.{
  IsLegal, returns, calls, >>=-IsLegal, if-IsLegal, terminate-IsLegal, renew_order-IsLegal,
  create_new_order-IsLegal, upgrade_order-IsLegal,
}
use titan_explorer.Order.Handlers.{
  Response, or_fail, get_refund_handler, create_order_handler, terminate_order_handler,
  renewal_order_handler, upgrade_order_handler, set_order_hash_handler, UpgradeOrderInfoReq,
}

or_fail-IsLegal :
    {A : Type 0} (o : Option A) (code : ℕ) (f : A → Prog Response)
    → ((a : A) → IsLegal (f a))
    → IsLegal (or_fail o code f)
or_fail-IsLegal none code f h = returns _
or_fail-IsLegal (some a) code f h = h a

-- The branch behind a refusal may use that the test passed.
unless-IsLegal :
    (b : Bool) (p q : Prog Response)
    → IsLegal p
    → (b ≡ true → IsLegal q)
    → IsLegal (if not b then p else q)
unless-IsLegal true p q l m = m refl
unless-IsLegal false p q l m = l

ruleset handlers = (returns, calls, if-IsLegal, or_fail-IsLegal, >>=-IsLegal, tt)

pub get_refund_handler-IsLegal : (id : String) → IsLegal (get_refund_handler id)
unfolding get_refund_handler
get_refund_handler-IsLegal id = search handlers depth 9

pub create_order_handler-IsLegal :
    (account : String) (params : Option OrderInfoReq)
    → IsLegal (create_order_handler account params)
unfolding create_order_handler
create_order_handler-IsLegal account params = search (handlers, create_new_order-IsLegal) depth 12

pub renewal_order_handler-IsLegal :
    (account : String) (params : Option String) → IsLegal (renewal_order_handler account params)
unfolding renewal_order_handler
renewal_order_handler-IsLegal account params = search (handlers, renew_order-IsLegal) depth 12

pub upgrade_order_handler-IsLegal :
    (account : String) (params : Option UpgradeOrderInfoReq)
    → IsLegal (upgrade_order_handler account params)
unfolding upgrade_order_handler
upgrade_order_handler-IsLegal account params = search (handlers, upgrade_order-IsLegal) depth 14

pub set_order_hash_handler-IsLegal :
    (account : String) (params : Option (String × String))
    → IsLegal (set_order_hash_handler account params)
unfolding set_order_hash_handler
set_order_hash_handler-IsLegal account params = search handlers depth 12

pub terminate_order_handler-IsLegal :
    (account : String) (params : Option String) → IsLegal (terminate_order_handler account params)
unfolding terminate_order_handler
terminate_order_handler-IsLegal account none = returns _
terminate_order_handler-IsLegal account (some id) = calls tt λ loaded.
    or_fail-IsLegal loaded _ _ λ (info : Order). if-IsLegal _ _ _ (returns _) (
      unless-IsLegal (status_eq info.status done) _ _ (returns _) λ e.
        >>=-IsLegal
          (terminate-IsLegal _ _ _ _ _ (rw (status_eq_sound info.status done e) end_early))
          λ err. if-IsLegal err _ _ (returns _) (returns _))
