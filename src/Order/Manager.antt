-- ===== src/Order/Manager.antt =====
-- core/order/impl.go and the passes of core/order/manager.go.
pub mod Legal
pub mod Expiry
use titan_explorer.Base.{
  ℕ, zero, suc, String, Bool, true, false, not, Option, none, some, List, [], ◌∷◌, if◌then◌else◌,
}
use titan_explorer.Base.Int.{ℤ, pos, ◌+ℤ◌, ◌-ℤ◌, ltb_ℤ, leb_ℤ, wrap64, mul64, quot, sub_time}
use titan_explorer.Order.Types.{
  OrderStatus, created, paid, done, expired, failed, upgrade, renewal, abandoned, OrderInfoReq,
  Order, ChainStatus, TokenOrder,
}
use titan_explorer.Order.Price.{hour_ns}
use titan_explorer.Order.Prog.{
  Cmd, Prog, ret, crash, ask, skip, log_error, for_each, or_skip, or_crash, ◌>>=◌, ◌>>◌,
}

abbrev pub is_active : ChainStatus → Bool
is_active ChainStatus.active = true
is_active _ = false

abbrev pub is_expired : ChainStatus → Bool
is_expired ChainStatus.expired = true
is_expired _ = false

-- `time.Duration(hours) * time.Hour`
abbrev hours_of : ℤ → ℤ
hours_of hours = mul64 (pos hour_ns) hours

abbrev is_empty : {X : Type 0} → List X → Bool
is_empty [] = true
is_empty (_ ∷ _) = false

-- core/order/impl.go

-- `Terminate`; the result is the error of the last step alone.
unfoldable pub terminate : String → String → String → OrderStatus → OrderStatus → Prog Bool
terminate id workspace cluster status old_status = do
  log_error (ask (Cmd.delete_space workspace cluster))
  log_error (ask (Cmd.release_order id))
  ask (Cmd.update_order_status id status old_status)

unfoldable pub renew_order : String → Prog Bool
renew_order id = ask (Cmd.update_order_status id renewal done)

unfoldable pub create_order_row :
    OrderInfoReq → String → String → String → String → ℤ → OrderStatus → Prog Bool
unfolding mul64 ◌+ℤ◌
create_order_row params account id workspace cluster price status = do
  now ← ask Cmd.now
  ask (
      Cmd.create_order (record {
        id = id;
        account = account;
        cpu_cores = params.cpu_cores;
        ram_size = params.ram_size;
        storage_size = params.storage_size;
        duration = params.duration;
        price = price;
        cluster = cluster;
        status = status;
        workspace_id = workspace;
        hash = "";
        created_at = pos 0;
        expired_at = now +ℤ hours_of params.duration;
        updated_at = pos 0;
      }))

unfoldable pub upgrade_order : Order → OrderInfoReq → String → String → ℤ → Prog Bool
unfolding create_order_row
upgrade_order old_order new_order account id price = do
  err ← create_order_row new_order account id old_order.workspace_id old_order.cluster price upgrade
  if err then ret true else ask (Cmd.update_order_status old_order.id abandoned done)

unfoldable pub create_new_order : OrderInfoReq → String → String → ℤ → Prog Bool
unfolding create_order_row
create_new_order params account id price = do
  cluster ← ask Cmd.get_cluster
  create_order_row params account id id cluster price created

-- core/order/manager.go

-- The head that the passes share: the ids in a status, then the chain's orders of these ids, then
-- `body` on each of them.
unfoldable pub for_chain_orders : OrderStatus → (TokenOrder → Prog (Unit {0})) → Prog (Unit {0})
for_chain_orders status body = do
  loaded ← ask (Cmd.load_order_ids_by_status status)
  or_skip loaded λ ids.
      if is_empty ids
      then skip
      else do answered ← ask (Cmd.get_orders ids); or_skip answered (for_each body)

-- What a pass writes from the chain's order: `int(tOrder.Duration) / 600` and the funds.
unfoldable pub hour_duration : TokenOrder → ℤ
unfolding wrap64 quot
hour_duration t = quot (wrap64 (pos t.duration)) 600

unfoldable pub paid_row : TokenOrder → Order → Order
unfolding hour_duration wrap64 mul64 ◌+ℤ◌
paid_row t o = record o {
  cpu_cores = pos t.cpu;
  ram_size = pos t.memory;
  storage_size = pos t.disk;
  duration = hour_duration t;
  expired_at = o.created_at +ℤ hours_of (hour_duration t);
  price = wrap64 (pos t.locked_funds);
  status = paid;
}

unfoldable pub renewed_row : TokenOrder → Order → Order
unfolding hour_duration wrap64 mul64 ◌+ℤ◌
renewed_row t o = record o {
  status = done;
  duration = hour_duration t;
  expired_at = o.created_at +ℤ hours_of (hour_duration t);
  price = wrap64 (pos t.locked_funds);
}

-- The new end is computed from `tOrder.Duration`, not from the hours.
unfoldable pub upgraded_row : TokenOrder → Order → Order
unfolding hour_duration wrap64 mul64 ◌+ℤ◌
upgraded_row t o = record o {
  status = done;
  duration = hour_duration t;
  expired_at = o.created_at +ℤ hours_of (wrap64 (pos t.duration));
  price = wrap64 (pos t.locked_funds);
  cpu_cores = pos t.cpu;
  storage_size = pos t.disk;
  ram_size = pos t.memory;
}

-- The body of `checkOrderPaid`. On an error the log line reads `dOrder.ID` of a nil pointer.
unfoldable pub pay_one : TokenOrder → Prog (Unit {0})
unfolding paid_row
pay_one t = if not (is_active t.status) then skip else do
  loaded ← ask (Cmd.load_order_by_id t.id)
  or_crash loaded λ o. log_error (ask (Cmd.update_order_info (paid_row t o) created))

unfoldable pub check_order_paid : Prog (Unit {0})
unfolding for_chain_orders pay_one
check_order_paid = for_chain_orders created pay_one

-- The body of `createSpaceFromOrders`.
unfoldable pub start_one : Order → Prog (Unit {0})
start_one o = do
  err ←
      ask
        (Cmd.create_space o.workspace_id o.account o.cluster o.cpu_cores o.ram_size o.storage_size)
  log_error (ask (Cmd.update_order_status o.id (if err then failed else done) paid))

unfoldable pub create_space_from_orders : Prog (Unit {0})
unfolding start_one
create_space_from_orders = do
  loaded ← ask (Cmd.load_orders_by_status paid)
  or_skip loaded (for_each start_one)

-- `time.Now().Sub(updated).Minutes() > 10`, in nanoseconds.
unfoldable pub is_overdue : ℤ → ℤ → Bool
unfolding sub_time
is_overdue now updated = ltb_ℤ (pos 600_000_000_000) (sub_time now updated)

-- The body of `checkOrderRenewal`.
unfoldable pub renew_one : TokenOrder → Prog (Unit {0})
unfolding terminate is_overdue hour_duration renewed_row
renew_one t = do
  loaded ← ask (Cmd.load_order_by_id t.id)
  or_skip loaded λ o.
      if is_expired t.status
      then log_error (terminate o.id o.workspace_id o.cluster expired o.status)
      else do
        now ← ask Cmd.now
        if is_overdue now o.updated_at
            then log_error (ask (Cmd.update_order_status o.id done renewal))
            else if leb_ℤ (hour_duration t) o.duration
            then skip
            else log_error (ask (Cmd.update_order_info (renewed_row t o) renewal))

unfoldable pub check_order_renewal : Prog (Unit {0})
unfolding for_chain_orders renew_one
check_order_renewal = for_chain_orders renewal renew_one

-- The body of `checkOrderAbandoned`.
unfoldable pub abandon_one : TokenOrder → Prog (Unit {0})
unfolding is_overdue
abandon_one t =
    if is_expired t.status
    then log_error (ask (Cmd.update_order_status t.id expired abandoned))
    else do
      loaded ← ask (Cmd.load_order_by_id t.id)
      or_skip loaded λ o. do
        now ← ask Cmd.now
        if is_overdue now o.updated_at
            then log_error (ask (Cmd.update_order_status o.id done abandoned))
            else skip

unfoldable pub check_order_abandoned : Prog (Unit {0})
unfolding for_chain_orders abandon_one
check_order_abandoned = for_chain_orders abandoned abandon_one

-- The body of `checkOrderUpgrade`.
unfoldable pub upgrade_one : TokenOrder → Prog (Unit {0})
unfolding upgraded_row
upgrade_one t = do
  loaded ← ask (Cmd.load_order_by_id t.id)
  or_skip loaded λ old.
      if is_expired t.status
      then log_error (ask (Cmd.update_order_status t.id expired upgrade))
      else do
        let o = upgraded_row t old
        err ← ask (Cmd.update_quotas o.workspace_id o.cluster o.cpu_cores o.ram_size o.storage_size)
        if err then skip else log_error (ask (Cmd.update_order_info o upgrade))

unfoldable pub check_order_upgrade : Prog (Unit {0})
unfolding for_chain_orders upgrade_one
check_order_upgrade = for_chain_orders upgrade upgrade_one

-- The body of `checkOrderActive`. On an error the log line reads `order.ID` of a nil pointer.
unfoldable pub active_one : TokenOrder → Prog (Unit {0})
unfolding terminate
active_one t = if is_active t.status then log_error (ask (Cmd.update_order_updated t.id)) else do
  loaded ← ask (Cmd.load_order_by_id t.id)
  or_crash loaded λ o. log_error (terminate t.id o.workspace_id o.cluster expired done)

unfoldable pub check_order_active : Prog (Unit {0})
unfolding for_chain_orders active_one
check_order_active = for_chain_orders done active_one

-- The body of `checkOrderExpired`.
unfoldable pub expire_one : Order → Prog (Unit {0})
unfolding terminate
expire_one o = log_error (terminate o.id o.workspace_id o.cluster expired o.status)

unfoldable pub check_order_expired : Prog (Unit {0})
unfolding expire_one
check_order_expired = do
  loaded ← ask (Cmd.load_expired_orders (done ∷ failed ∷ upgrade ∷ renewal ∷ []))
  or_skip loaded (for_each expire_one)

-- `deleteOrders`: unpaid orders of five minutes ago.
unfoldable pub delete_orders : Prog (Unit {0})
unfolding ◌-ℤ◌
delete_orders = do
  now ← ask Cmd.now
  log_error (ask (Cmd.delete_orders_by_created (now -ℤ pos 300_000_000_000)))

-- One round of each timer.
unfoldable pub timer_round : Prog (Unit {0})
unfolding check_order_paid create_space_from_orders check_order_renewal check_order_upgrade
    check_order_abandoned
timer_round = do
  check_order_paid
  create_space_from_orders
  check_order_renewal
  check_order_upgrade
  check_order_abandoned

unfoldable pub timer2_round : Prog (Unit {0})
unfolding delete_orders check_order_expired check_order_active
timer2_round = do delete_orders; check_order_expired; check_order_active

-- `startTimer` and `startTimer2` loop for ever: here, for any number of rounds.
unfoldable pub rounds : ℕ → Prog (Unit {0}) → Prog (Unit {0})
rounds zero body = skip
rounds (suc n) body = body >> rounds n body
