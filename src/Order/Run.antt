-- ===== src/Order/Run.antt =====
-- Running programs: one alone, and many at once with their calls interleaved. The deployed service
-- runs two timers (core/order/manager.go) beside its request handlers, in several processes.
pub mod Pool
pub mod Dead
pub mod Guards
pub mod Upgrade
pub mod Bind
pub mod Payment
use titan_explorer.Base.{ℕ, zero, suc, String, Bool, Option, List, [], ◌∷◌, map}
use titan_explorer.Base.Program
pub use titan_explorer.Base.Program.{Outcome, returned, crashed}
use titan_explorer.Base.Program.{interleave}
use titan_explorer.Order.Types.{OrderInfoReq, Order}
use titan_explorer.Order.Prog.{Cmd, Resp, Prog, ret, crash, call, skip, ◌>>=◌}
use titan_explorer.Order.Store.{Oracle, answer, effect}
use titan_explorer.Order.Manager.{timer_round, timer2_round, rounds}
use titan_explorer.Order.Handlers.{
  Response, UpgradeOrderInfoReq, get_refund_handler, create_order_handler, terminate_order_handler,
  renewal_order_handler, upgrade_order_handler, set_order_hash_handler,
}

-- The table, the number of calls so far, and these calls, the last one first.
pub record World : Type 0 where
  pub orders : List Order
  pub tick : ℕ
  pub log : List Cmd

-- The world after a call.
unfoldable pub after : Oracle → Cmd → World → World
after w c s = record { orders = effect w s.tick c s.orders; tick = suc s.tick; log = c ∷ s.log }

abbrev pub handle : Oracle → (c : Cmd) → World → Resp c × World
handle w c s = (answer w s.tick c s.orders, after w c s)

-- A program that runs alone.
abbrev pub run : {A : Type 0} → Oracle → Prog A → World → Outcome A × World
run w = Program.run (handle w)

-- What runs in the service.
pub data Task : Type 0 where
  timer timer2 : ℕ → Task
  refund : String → Task
  create : String → Option OrderInfoReq → Task
  terminate renewal : String → Option String → Task
  upgrade : String → Option UpgradeOrderInfoReq → Task
  set_hash : String → Option (String × String) → Task

abbrev answered : Prog Response → Prog (Unit {0})
answered p = p >>= λ _. skip

unfoldable pub program : Task → Prog (Unit {0})
program (Task.timer n) = rounds n timer_round
program (Task.timer2 n) = rounds n timer2_round
program (Task.refund id) = answered (get_refund_handler id)
program (Task.create account params) = answered (create_order_handler account params)
program (Task.terminate account params) = answered (terminate_order_handler account params)
program (Task.renewal account params) = answered (renewal_order_handler account params)
program (Task.upgrade account params) = answered (upgrade_order_handler account params)
program (Task.set_hash account params) = answered (set_order_hash_handler account params)

-- Any tasks at once, by any schedule.
unfoldable pub serve : Oracle → List ℕ → List Task → World → World
unfolding interleave program
serve w schedule tasks s = (interleave (handle w) schedule (map program tasks) s).1
