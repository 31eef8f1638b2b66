-- ===== src/Order/Run/Guards.antt =====
-- What the handlers of an existing order refuse, and what they do when they go on.
use titan_explorer.Base.Program
use titan_explorer.Base.{
  ℕ, suc, String, ◌≡◌, ◌≢◌, refl, true, false, some, ◌∷◌, arith, eq_iff, str_eq, if◌then◌else◌,
}
use titan_explorer.Order.Types.{OrderStatus, done, termination, status_eq, Order, OrderInfoReq}
use titan_explorer.Order.Params.{not_found, internal_server, order_status}
use titan_explorer.Order.Prog.{Cmd}
use titan_explorer.Order.Store.{
  Oracle, answer, effect, write, load_order_by_id, update_order_status,
}
use titan_explorer.Order.Store.Legal.{status_eq_sound}
use titan_explorer.Order.Handlers.{
  Response, error_code, success, terminate_order_handler, renewal_order_handler,
  upgrade_order_handler, set_order_hash_handler,
}
use titan_explorer.Order.Run.{World, after, Outcome, returned, run}

-- The answer `code`, after the one read of the order: nothing is written or called.
abbrev pub Refused : Oracle → World → String → ℕ → Outcome Response × World → Type 0
Refused w s id code (r, s') =
    (r ≡ returned (error_code code))
    × (s'.orders ≡ s.orders)
    × (s'.log ≡ Cmd.load_order_by_id id ∷ s.log)

not_equal : (a b : String) → a ≢ b → str_eq a b ≡ false
not_equal a b ne = ground (arith, eq_iff a b)

pub equal : (a b : String) → a ≡ b → str_eq a b ≡ true
equal a b e = ground (arith, eq_iff a b)

status_eq_refl : (a : OrderStatus) → status_eq a a ≡ true
status_eq_refl a = ground arith

status_differs : (a b : OrderStatus) → a ≢ b → status_eq a b ≡ false
status_differs a b ne = ground (arith, status_eq_sound a b)

pub status_equal : (a b : OrderStatus) → a ≡ b → status_eq a b ≡ true
status_equal a b e = rw e (status_eq_refl b)

-- A read leaves the table.
after-load :
    (w : Oracle) (id : String) (s : World) → (after w (Cmd.load_order_by_id id) s).orders ≡ s.orders
unfolding after effect write
after-load w id s = ground arith

module _ (w : Oracle) (s : World) (account id : String) (o : Order) (up : w.fails s.tick ≡ false)
    (found : load_order_by_id id s.orders ≡ some o) where
  pub loaded : answer w s.tick (Cmd.load_order_by_id id) s.orders ≡ some o
  unfolding answer
  loaded = rw (up, found)

  refused :
      (code : ℕ)
      → Refused w s id code (returned (error_code code), after w (Cmd.load_order_by_id id) s)
  unfolding after
  refused code = (refl, after-load w id s, refl)

  -- An order of somebody else is answered with "not found" by every handler, and left alone.
  pub owner_only :
      (info : OrderInfoReq) (hash : String)
      → o.account ≢ account
      → Refused w s id not_found (run w (terminate_order_handler account (some id)) s)
        × Refused w s id not_found (run w (renewal_order_handler account (some id)) s)
        × Refused w s id not_found
            (run w (upgrade_order_handler account (some (record { info = info; id = id }))) s)
        × Refused w s id not_found (run w (set_order_hash_handler account (some (id, hash))) s)
  unfolding Program.run terminate_order_handler renewal_order_handler upgrade_order_handler
      set_order_hash_handler
  owner_only info hash other =
      ground (arith, loaded, not_equal o.account account other, refused not_found)

  -- An order of the caller that is not running is refused by all three, and left alone.
  pub running_only :
      (info : OrderInfoReq)
      → o.account ≡ account
      → o.status ≢ done
      → Refused w s id order_status (run w (terminate_order_handler account (some id)) s)
        × Refused w s id order_status (run w (renewal_order_handler account (some id)) s)
        × Refused w s id order_status
            (run w (upgrade_order_handler account (some (record { info = info; id = id }))) s)
  unfolding Program.run terminate_order_handler renewal_order_handler upgrade_order_handler
  running_only info own stopped = ground (
    arith,
    loaded,
    equal o.account account own,
    status_differs o.status done stopped,
    refused order_status,
  )

  -- A running order of the caller is terminated even if its space or its funds cannot be released:
  -- the three calls are made in this order whatever the first two answer, and the answer and the
  -- table go by the third.
  pub terminate_goes_on :
      o.account ≡ account
      → o.status ≡ done
      → let (r, s') = run w (terminate_order_handler account (some id)) s in
        let n = suc (suc (suc s.tick)) in
        (r ≡ returned (if w.fails n then error_code internal_server else success))
        × (s'.orders ≡ (
            if w.fails n
            then s.orders
            else update_order_status (w.clock n) id termination done s.orders))
        × (s'.log
            ≡ Cmd.update_order_status id termination done
              ∷ Cmd.release_order id
              ∷ Cmd.delete_space o.workspace_id o.cluster
              ∷ Cmd.load_order_by_id id
              ∷ s.log)
  unfolding Program.run after effect write answer terminate_order_handler
  terminate_goes_on own running =
      ground (arith, loaded, equal o.account account own, status_equal o.status done running)
