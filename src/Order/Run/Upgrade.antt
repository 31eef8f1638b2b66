-- ===== src/Order/Run/Upgrade.antt =====
-- What an upgrade leaves in the table, on each of its branches.
use titan_explorer.Base.Program
use titan_explorer.Base.{
  ℕ, suc, String, ◌≡◌, refl, false, ◌&&◌, ◌||◌, some, List, [], ◌∷◌, ◌++◌, map, arith, str_eq,
  if◌then◌else◌,
}
use titan_explorer.Base.Int.{ℤ, pos, ◌+ℤ◌, mul64}
use titan_explorer.Order.Types.{done, upgrade, abandoned, status_eq, Order, OrderInfoReq}
use titan_explorer.Order.Params.{internal_server, check_order_params}
use titan_explorer.Order.Price.{calculate_total_cost, hour_ns}
use titan_explorer.Order.Store.{
  Oracle, answer, effect, write, load_order_by_id, update_where, update_order_status, create_order,
}
use titan_explorer.Order.Store.Rows.{load_order_by_id-id}
use titan_explorer.Order.Handlers.{error_code, order_id, upgrade_order_handler}
use titan_explorer.Order.Run.{World, after, returned, run}
use titan_explorer.Order.Run.Guards.{equal, status_equal, loaded}

-- The row that an upgrade of `o` inserts at the n-th call.
abbrev pub upgrade_row : Oracle → World → String → Order → OrderInfoReq → ℕ → Order
upgrade_row w s account o info n = record {
  id = w.uuid (suc s.tick);
  account = account;
  cpu_cores = info.cpu_cores;
  ram_size = info.ram_size;
  storage_size = info.storage_size;
  duration = info.duration;
  price = calculate_total_cost info;
  cluster = o.cluster;
  status = upgrade;
  workspace_id = o.workspace_id;
  hash = w.default_hash n;
  created_at = w.default_time n;
  expired_at = w.clock (suc (suc s.tick)) +ℤ mul64 (pos hour_ns) info.duration;
  updated_at = w.default_time n;
}

-- The old order, while it runs, is abandoned.
abbrev pub abandon : String → ℤ → Order → Order
abandon id now r =
    if str_eq r.id id && status_eq r.status done
    then record r { status = abandoned; updated_at = now }
    else r

update_order_status-append :
    (now : ℤ) (id : String) (t : List Order) (x : Order)
    → status_eq x.status done ≡ false
    → update_order_status now id abandoned done (t ++ (x ∷ [])) ≡ map (abandon id now) t ++ (x ∷ [])
unfolding update_order_status update_where
update_order_status-append now id [] x e = ground (arith, e)
update_order_status-append now id (r ∷ t) x e =
    ground (arith, update_order_status-append now id t x e)

module _ (w : Oracle) (s : World) (account id : String) (o : Order) (up : w.fails s.tick ≡ false)
    (found : load_order_by_id id s.orders ≡ some o) where
  -- An upgrade of an own running order to an orderable configuration, whatever fails after the order is
  -- read: if the insertion fails, the table is as it was; else it has an order in the status `upgrade`
  -- at its end, at the price of the configuration, in the old order's workspace, and, unless the next
  -- statement fails, the rows with the old order's id that were running are abandoned, and no other
  -- row is changed. The answer is the new id, or an error where one of the two fails.
  pub upgrade_replaces :
      (info : OrderInfoReq)
      → o.account ≡ account
      → o.status ≡ done
      → check_order_params info ≡ 0
      → let (r, s') =
          run w (upgrade_order_handler account (some (record { info = info; id = id }))) s in
        let n = suc (suc (suc s.tick)) in
        let added = upgrade_row w s account o info n ∷ [] in
        (r
          ≡ returned (
              if w.fails n || w.fails (suc n)
              then error_code internal_server
              else order_id (w.uuid (suc s.tick))))
        × (s'.orders ≡ (
            if w.fails n
            then s.orders
            else if w.fails (suc n)
            then s.orders ++ added
            else map (abandon id (w.clock (suc n))) s.orders ++ added))
  unfolding Program.run after effect write answer upgrade_order_handler create_order
  upgrade_replaces info own running fits = ground (
    arith,
    loaded w s account id o up found,
    equal o.account account own,
    status_equal o.status done running,
    load_order_by_id-id id s.orders found,
    update_order_status-append (w.clock (suc (suc (suc (suc s.tick))))) id s.orders
        (upgrade_row w s account o info (suc (suc (suc s.tick)))) refl,
  )
