-- ===== src/Order/Store.antt =====
-- The table `container_platform_orders` and the statements of core/dao/platform.go on it. A
-- statement is atomic; one that fails changes nothing. The table's schema is not in the
-- repository: the columns that INSERT leaves out get the defaults that the oracle names.
pub mod Evolve
pub mod Legal
pub mod Rows
use titan_explorer.Base.{
  ℕ, suc, ◌+◌, String, Bool, true, false, ◌&&◌, Option, none, some, List, [], ◌∷◌, ◌++◌, map,
  if◌then◌else◌, str_eq, keep, any,
}
use titan_explorer.Base.Int.{ℤ, ltb_ℤ}
use titan_explorer.Order.Types.{OrderStatus, created, status_eq, Order, TokenOrder}
use titan_explorer.Order.Prog.{Cmd, Resp}

-- What the outside answers at the n-th call.
pub record Oracle : Type 0 where
  pub fails : ℕ → Bool
  pub clock : ℕ → ℤ
  pub uuid : ℕ → String
  pub cluster : String
  pub default_hash : ℕ → String
  pub default_time : ℕ → ℤ
  pub chain : ℕ → List String → Option (List TokenOrder)

-- UPDATE … SET f WHERE p
unfoldable pub update_where : (Order → Bool) → (Order → Order) → List Order → List Order
update_where p f [] = []
update_where p f (o ∷ t) = (if p o then f o else o) ∷ update_where p f t

-- DELETE … WHERE p
unfoldable pub delete_where : (Order → Bool) → List Order → List Order
delete_where p [] = []
delete_where p (o ∷ t) = if p o then delete_where p t else o ∷ delete_where p t

-- WHERE id=? AND status=?
abbrev pub has_id_status : String → OrderStatus → Order → Bool
has_id_status id status o = str_eq o.id id && status_eq o.status status

abbrev pub has_id : String → Order → Bool
has_id id o = str_eq o.id id

-- `CreateOrder`
unfoldable pub create_order : String → ℤ → Order → List Order → List Order
create_order hash time order t =
    t ++ (record order { hash = hash; created_at = time; updated_at = time } ∷ [])

-- `UpdateOrderUpdated`
unfoldable pub update_order_updated : ℤ → String → List Order → List Order
update_order_updated now id = update_where (has_id id) (λ o. record o { updated_at = now })

-- `UpdateOrderInfo`: the statement sets no ram.
unfoldable pub update_order_info : ℤ → Order → OrderStatus → List Order → List Order
update_order_info now order old_status = update_where (has_id_status order.id old_status) (λ o.
    record o {
      status = order.status;
      cpu_cores = order.cpu_cores;
      storage_size = order.storage_size;
      duration = order.duration;
      price = order.price;
      expired_at = order.expired_at;
      updated_at = now;
    })

-- `UpdateOrderStatus`
unfoldable pub update_order_status :
    ℤ → String → OrderStatus → OrderStatus → List Order → List Order
update_order_status now id status old_status =
    update_where (has_id_status id old_status) (λ o. record o { status = status; updated_at = now })

-- `UpdateOrderHash`
unfoldable pub update_order_hash : String → String → List Order → List Order
update_order_hash id hash = update_where (has_id id) (λ o. record o { hash = hash })

-- `DeleteOrdersByCreated`
unfoldable pub delete_orders_by_created : ℤ → List Order → List Order
delete_orders_by_created time =
    delete_where (λ o. status_eq o.status created && ltb_ℤ o.created_at time)

-- `LoadExpiredOrders`
unfoldable pub load_expired_orders : ℤ → List OrderStatus → List Order → List Order
load_expired_orders now statuses =
    keep (λ o. any (status_eq o.status) statuses && ltb_ℤ o.expired_at now)

-- `LoadOrdersByStatus`
unfoldable pub load_orders_by_status : OrderStatus → List Order → List Order
load_orders_by_status status = keep (λ o. status_eq o.status status)

-- `LoadOrderIDsByStatus`
unfoldable pub load_order_ids_by_status : OrderStatus → List Order → List String
unfolding load_orders_by_status
load_order_ids_by_status status t = map (λ o. o.id) (load_orders_by_status status t)

-- `LoadOrderByID`: `Get` takes the first row.
unfoldable pub load_order_by_id : String → List Order → Option Order
load_order_by_id id [] = none
load_order_by_id id (o ∷ t) = if has_id id o then some o else load_order_by_id id t

abbrev pub unless_fails : {A : Type 0} → Bool → A → Option A
unless_fails true a = none
unless_fails false a = some a

-- The answer of the n-th call.
unfoldable pub answer : Oracle → ℕ → (c : Cmd) → List Order → Resp c
unfolding load_expired_orders load_order_ids_by_status load_orders_by_status load_order_by_id
answer w n Cmd.now t = w.clock n
answer w n Cmd.new_uuid t = w.uuid n
answer w n Cmd.get_cluster t = w.cluster
answer w n (Cmd.load_expired_orders s) t =
    unless_fails (w.fails n) (load_expired_orders (w.clock n) s t)
answer w n (Cmd.load_order_ids_by_status s) t =
    unless_fails (w.fails n) (load_order_ids_by_status s t)
answer w n (Cmd.load_orders_by_status s) t = unless_fails (w.fails n) (load_orders_by_status s t)
answer w n (Cmd.load_order_by_id id) t = if w.fails n then none else load_order_by_id id t
answer w n (Cmd.get_orders ids) t = w.chain n ids
answer w n (Cmd.create_order o) t = w.fails n
answer w n (Cmd.update_order_updated id) t = w.fails n
answer w n (Cmd.update_order_info o s) t = w.fails n
answer w n (Cmd.update_order_status id s s') t = w.fails n
answer w n (Cmd.update_order_hash id h) t = w.fails n
answer w n (Cmd.delete_orders_by_created time) t = w.fails n
answer w n (Cmd.release_order id) t = w.fails n
answer w n (Cmd.create_space ws a c cpu ram disk) t = w.fails n
answer w n (Cmd.update_quotas ws c cpu ram disk) t = w.fails n
answer w n (Cmd.delete_space ws c) t = w.fails n

-- The table after a statement that does not fail.
unfoldable pub write : Oracle → ℕ → Cmd → List Order → List Order
unfolding create_order update_order_updated update_order_info update_order_status update_order_hash
    delete_orders_by_created
write w n (Cmd.create_order o) t = create_order (w.default_hash n) (w.default_time n) o t
write w n (Cmd.update_order_updated id) t = update_order_updated (w.clock n) id t
write w n (Cmd.update_order_info o s) t = update_order_info (w.clock n) o s t
write w n (Cmd.update_order_status id s old) t = update_order_status (w.clock n) id s old t
write w n (Cmd.update_order_hash id h) t = update_order_hash id h t
write w n (Cmd.delete_orders_by_created time) t = delete_orders_by_created time t
write w n _ t = t

-- The table after the n-th call.
unfoldable pub effect : Oracle → ℕ → Cmd → List Order → List Order
unfolding write
effect w n c t = if w.fails n then t else write w n c t
