-- ===== src/Order/Handlers.antt =====
-- The order handlers of api/platform.go. `account` is the caller, from the request's context;
-- the parameters are `none` where `BindJSON` fails.
pub mod Legal
use titan_explorer.Base.{
  ℕ, suc, String, Bool, true, false, not, Option, none, some, ◌==◌, if◌then◌else◌, str_eq,
}
use titan_explorer.Base.Int.{ℤ}
use titan_explorer.Order.Types.{OrderStatus, done, termination, status_eq, OrderInfoReq, Order}
use titan_explorer.Order.Params.{
  not_found, invalid_params, internal_server, order_status, check_order_params,
}
use titan_explorer.Order.Price.{calculate_total_cost, calculate_order_refund}
use titan_explorer.Order.Prog.{Cmd, Prog, ret, ask, ◌>>=◌}
use titan_explorer.Order.Manager.{terminate, renew_order, upgrade_order, create_new_order}

-- The JSON answers: `respErrorCode`, an order id, a cost, or "success".
pub data Response : Type 0 where
  error_code : ℕ → Response
  order_id : String → Response
  cost : ℤ → Response
  success : Response

abbrev pub fail : ℕ → Prog Response
fail code = ret (error_code code)

-- `UpgradeOrderInfoReq`
pub record UpgradeOrderInfoReq : Type 0 where
  pub info : OrderInfoReq
  pub id : String

-- A read that answers `code` when it fails.
abbrev pub or_fail : {A : Type 0} → Option A → ℕ → (A → Prog Response) → Prog Response
or_fail none code f = fail code
or_fail (some a) code f = f a

unfoldable pub get_price_handler : OrderInfoReq → Response
unfolding check_order_params calculate_total_cost
get_price_handler params =
    if not (check_order_params params == 0)
    then error_code invalid_params
    else cost (calculate_total_cost params)

unfoldable pub get_refund_handler : String → Prog Response
get_refund_handler id = do
  loaded ← ask (Cmd.load_order_by_id id)
  or_fail loaded not_found
      λ order. do now ← ask Cmd.now; ret (cost (calculate_order_refund now order))

unfoldable pub create_order_handler : String → Option OrderInfoReq → Prog Response
unfolding create_new_order
create_order_handler account bound = or_fail bound invalid_params λ params.
    if not (check_order_params params == 0) then fail invalid_params else do
      let price = calculate_total_cost params
      id ← ask Cmd.new_uuid
      err ← create_new_order params account id price
      if err then fail internal_server else ret (order_id id)

unfoldable pub terminate_order_handler : String → Option String → Prog Response
unfolding terminate
terminate_order_handler account bound = or_fail bound invalid_params λ id. do
  loaded ← ask (Cmd.load_order_by_id id)
  or_fail loaded not_found λ info.
      if not (str_eq info.account account)
      then fail not_found
      else if not (status_eq info.status done)
      then fail order_status
      else do
        err ← terminate id info.workspace_id info.cluster termination info.status
        if err then fail internal_server else ret success

unfoldable pub renewal_order_handler : String → Option String → Prog Response
unfolding renew_order
renewal_order_handler account bound = or_fail bound invalid_params λ id. do
  loaded ← ask (Cmd.load_order_by_id id)
  or_fail loaded not_found λ info.
      if not (str_eq info.account account)
      then fail not_found
      else if not (status_eq info.status done)
      then fail order_status
      else do err ← renew_order id; if err then fail internal_server else ret success

unfoldable pub upgrade_order_handler : String → Option UpgradeOrderInfoReq → Prog Response
unfolding upgrade_order
upgrade_order_handler account bound = or_fail bound invalid_params λ params. do
  loaded ← ask (Cmd.load_order_by_id params.id)
  or_fail loaded not_found λ old.
      if not (str_eq old.account account)
      then fail not_found
      else if not (status_eq old.status done)
      then fail order_status
      else if not (check_order_params params.info == 0)
      then fail invalid_params
      else do
        let price = calculate_total_cost params.info
        id ← ask Cmd.new_uuid
        err ← upgrade_order old params.info account id price
        if err then fail internal_server else ret (order_id id)

-- The parameters are the order's id and the hash.
unfoldable pub set_order_hash_handler : String → Option (String × String) → Prog Response
set_order_hash_handler account bound = or_fail bound invalid_params λ params. do
  loaded ← ask (Cmd.load_order_by_id params.0)
  or_fail loaded not_found λ order.
      if not (str_eq order.account account) then fail not_found else do
        err ← ask (Cmd.update_order_hash order.id params.1)
        if err then fail internal_server else ret success
