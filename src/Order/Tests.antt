-- ===== src/Order/Tests.antt =====
-- The order model at concrete inputs: runs, and the theorems at values that meet their hypotheses.
use titan_explorer.Base.Program
use titan_explorer.Base.{
  ℕ, ◌≡◌, ◌≢◌, refl, true, false, not, some, List, [], ◌∷◌, All, arith, if◌then◌else◌, eq_iff, ◌==◌,
  ◌||◌, ◌++◌, map,
}
use titan_explorer.Base.Int.{pos, negsuc, mul64, add64, quot, sub_time}
use titan_explorer.Order.Types.{
  OrderStatus, created, paid, done, renewal, termination, OrderInfoReq, Order, ChainStatus,
  TokenOrder,
}
use titan_explorer.Order.Params.{
  check_order_params, internal_server, not_found, order_status, invalid_params,
}
use titan_explorer.Order.Price.{
  calculate_total_cost, calculate_order_refund, ceil_hours, calculate_cpu_price,
}
use titan_explorer.Order.Price.Bounds.{IsWithin, total_cost_bounds}
use titan_explorer.Order.Price.Refund.{refund_bounds, refund_late, total_cost-zero}
use titan_explorer.Order.Prog.{Cmd, for_each}
use titan_explorer.Order.Store.{Oracle, answer, effect, write, load_order_by_id, update_where}
use titan_explorer.Order.Store.Evolve.{Evolve}
use titan_explorer.Order.Store.Rows.{Rows}
use titan_explorer.Order.Manager.{check_order_paid}
use titan_explorer.Order.Handlers.{
  error_code, order_id, get_price_handler, terminate_order_handler, renewal_order_handler,
  upgrade_order_handler, set_order_hash_handler,
}
use titan_explorer.Order.Run.{World, after, returned, crashed, run, Task, serve}
use titan_explorer.Order.Run.Pool.{serve-Evolve}
use titan_explorer.Order.Run.Dead.{IsRemains, Has, serve-IsDead}
use titan_explorer.Order.Run.Guards.{Refused, owner_only, running_only, terminate_goes_on}
use titan_explorer.Order.Run.Upgrade.{upgrade_row, abandon, upgrade_replaces}
use titan_explorer.Order.Run.Payment.{Pays, check_order_paid_only_active}

-- 4 cores, 8 GB, 200 GB, 48 hours.
abbrev config : OrderInfoReq
config = record { cpu_cores = pos 4; ram_size = pos 8; storage_size = pos 200; duration = pos 48 }

price_of_config : calculate_total_cost config ≡ pos 62_208
unfolding calculate_total_cost quot mul64 add64
price_of_config = refl

negative_cores :
    get_price_handler (record config { cpu_cores = negsuc 0 }) ≡ error_code invalid_params
unfolding get_price_handler
negative_cores = refl

-- A seventeenth core makes an hour cheaper.
cores_tiers : (calculate_cpu_price (pos 16) ≡ pos 1280) × (calculate_cpu_price (pos 17) ≡ pos 1190)
unfolding calculate_cpu_price mul64 quot
cores_tiers = (refl, refl)

total_cost_bounds_example : IsWithin 34_944 76_800 (calculate_total_cost config)
unfolding check_order_params
total_cost_bounds_example = total_cost_bounds config refl

abbrev order : OrderStatus → Order
order status = record {
  id = "order-1";
  account = "alice";
  cpu_cores = pos 4;
  ram_size = pos 8;
  storage_size = pos 200;
  duration = pos 48;
  price = pos 62_208;
  cluster = "c1";
  status = status;
  workspace_id = "order-1";
  hash = "";
  created_at = pos 0;
  expired_at = pos 172_800_000_000_000;
  updated_at = pos 0;
}

refund_bounds_example :
    IsWithin 0 62_208 (calculate_order_refund (pos 36_000_000_000_000) (order done))
unfolding check_order_params
refund_bounds_example =
    refund_bounds (pos 36_000_000_000_000) (order done) 62_208 refl (omega arith) refl

-- 721 hours and a nanosecond after the start.
refund_late_example : calculate_order_refund (pos 2_595_600_000_000_001) (order done) ≡ pos 62_208
unfolding ceil_hours sub_time
refund_late_example =
    refund_late (pos 2_595_600_000_000_001) (order done) 62_208 refl (omega arith) (omega arith)

total_cost-zero_example : calculate_total_cost (record config { duration = pos 721 }) ≡ pos 0
total_cost-zero_example = total_cost-zero (record config { duration = pos 721 }) (omega arith)

abbrev token : ChainStatus → TokenOrder
token status = record {
  id = "order-1";
  duration = 14_400;
  initiator = "alice";
  locked_funds = 40_000;
  cpu = 2;
  memory = 4;
  disk = 100;
  start_height = 7;
  status = status;
}

-- An outside where nothing fails and the chain has one order.
abbrev calm : ChainStatus → Oracle
calm status = record {
  fails = λ n. false;
  clock = λ n. pos 1000;
  uuid = λ n. "order-2";
  cluster = "c1";
  default_hash = λ n. "";
  default_time = λ n. pos 1000;
  chain = λ n ids. some (token status ∷ []);
}

abbrev world : OrderStatus → World
world status = record { orders = order status ∷ []; tick = 0; log = [] }

pays :
    (run (calm ChainStatus.active) check_order_paid (world created)).1.orders
    ≡ record (order paid) {
      cpu_cores = pos 2;
      storage_size = pos 100;
      duration = pos 24;
      price = pos 40_000;
      expired_at = pos 86_400_000_000_000;
      updated_at = pos 1000;
    }
      ∷ []
unfolding Program.run after answer effect write check_order_paid update_where mul64 quot for_each
pays = refl

-- The read of the order that the chain names fails: the log line panics.
crashes_on_error :
    (run
      (record (calm ChainStatus.active) { fails = λ n. if n == 2 then true else false })
      check_order_paid
      (world created)).0
    ≡ crashed
unfolding Program.run after answer effect write check_order_paid for_each
crashes_on_error = refl

check_order_paid_only_active_example :
    Rows
      (Pays (token ChainStatus.active ∷ []))
      (order created ∷ [])
      (run (calm ChainStatus.active) check_order_paid (world created)).1.orders
check_order_paid_only_active_example =
    check_order_paid_only_active (calm ChainStatus.active) (world created)

-- Two timers, a renewal and a termination at once.
abbrev tasks : List Task
tasks =
    Task.timer 1
    ∷ Task.timer2 1
    ∷ Task.renewal "alice" (some "order-1")
    ∷ Task.terminate "alice" (some "order-1")
    ∷ []

abbrev schedule : List ℕ
schedule = 0 ∷ 2 ∷ 3 ∷ 3 ∷ 2 ∷ 1 ∷ 3 ∷ 3 ∷ 0 ∷ 0 ∷ []

serve-Evolve_example :
    Evolve (order done ∷ []) (serve (calm ChainStatus.active) schedule tasks (world done)).orders
serve-Evolve_example = serve-Evolve (calm ChainStatus.active) schedule tasks (world done)

serve-IsDead_example :
    All
      (λ o.
        Has
          (IsRemains o)
          (serve (calm ChainStatus.expired) schedule tasks (world termination)).orders)
      (order termination ∷ [])
serve-IsDead_example = serve-IsDead (calm ChainStatus.expired) schedule tasks (world termination)

found : load_order_by_id "order-1" (order done ∷ []) ≡ some (order done)
unfolding load_order_by_id
found = refl

not_bob : (order done).account ≢ "bob"
not_bob e = absurd (cc ((eq_iff "alice" "bob").1 e))

owner_only_example :
    let w = calm ChainStatus.active in
    let s = world done in
    Refused w s "order-1" not_found (run w (terminate_order_handler "bob" (some "order-1")) s)
    × Refused w s "order-1" not_found (run w (renewal_order_handler "bob" (some "order-1")) s)
    × Refused w s "order-1" not_found
        (run w (upgrade_order_handler "bob" (some (record { info = config; id = "order-1" }))) s)
    × Refused w s "order-1" not_found
        (run w (set_order_hash_handler "bob" (some ("order-1", "0xab"))) s)
owner_only_example =
    owner_only (calm ChainStatus.active) (world done) "bob" "order-1" (order done) refl found config
      "0xab" not_bob

found_renewal : load_order_by_id "order-1" (order renewal ∷ []) ≡ some (order renewal)
unfolding load_order_by_id
found_renewal = refl

running_only_example :
    let w = calm ChainStatus.active in
    let s = world renewal in
    Refused w s "order-1" order_status (run w (terminate_order_handler "alice" (some "order-1")) s)
    × Refused w s "order-1" order_status (run w (renewal_order_handler "alice" (some "order-1")) s)
    × Refused w s "order-1" order_status
        (run w (upgrade_order_handler "alice" (some (record { info = config; id = "order-1" }))) s)
running_only_example =
    running_only (calm ChainStatus.active) (world renewal) "alice" "order-1" (order renewal) refl
      found_renewal config refl (λ e. cc)

-- Here every call but the read fails, and so does the update.
abbrev broken : Oracle
broken = record (calm ChainStatus.active) { fails = λ n. not (n == 0) }

terminate_goes_on_example :
    let (r, s') = run broken (terminate_order_handler "alice" (some "order-1")) (world done) in
    (r ≡ returned (error_code internal_server))
    × (s'.orders ≡ order done ∷ [])
    × (s'.log
        ≡ Cmd.update_order_status "order-1" termination done
          ∷ Cmd.release_order "order-1"
          ∷ Cmd.delete_space "order-1" "c1"
          ∷ Cmd.load_order_by_id "order-1"
          ∷ [])
terminate_goes_on_example =
    terminate_goes_on broken (world done) "alice" "order-1" (order done) refl found refl refl

upgrade_replaces_example :
    let w = calm ChainStatus.active in
    let (r, s') =
      run w
        (upgrade_order_handler "alice" (some (record { info = config; id = "order-1" })))
        (world done) in
    let added = upgrade_row w (world done) "alice" (order done) config 3 ∷ [] in
    (r
      ≡ returned
          (if w.fails 3 || w.fails 4 then error_code internal_server else order_id "order-2"))
    × (s'.orders ≡ (
        if w.fails 3
        then (world done).orders
        else if w.fails 4
        then (world done).orders ++ added
        else map (abandon "order-1" (pos 1000)) (world done).orders ++ added))
unfolding check_order_params
upgrade_replaces_example =
    upgrade_replaces (calm ChainStatus.active) (world done) "alice" "order-1" (order done) refl
      found config refl refl refl
