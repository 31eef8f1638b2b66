-- ===== src/Order/Run/Pool.antt =====
-- However the calls of the service's tasks interleave, the table evolves along the status graph.
use titan_explorer.Base.Program
use titan_explorer.Base.Program.{advance, interleave}
use titan_explorer.Base.{ℕ, zero, suc, List, [], ◌∷◌, map, All}
use titan_explorer.Order.Prog.{Prog, ret, crash, call, skip, ◌>>=◌}
use titan_explorer.Order.Store.{Oracle, answer}
use titan_explorer.Order.Store.Evolve.{Evolve, Evolve-refl, Evolve-trans}
use titan_explorer.Order.Store.Legal.{effect-Evolve}
use titan_explorer.Order.Manager.Legal.{
  IsLegal, returns, crashes, calls, called, >>=-IsLegal, timer_round-IsLegal, timer2_round-IsLegal,
  rounds-IsLegal,
}
use titan_explorer.Order.Handlers.{Response}
use titan_explorer.Order.Handlers.Legal.{
  get_refund_handler-IsLegal, create_order_handler-IsLegal, terminate_order_handler-IsLegal,
  renewal_order_handler-IsLegal, upgrade_order_handler-IsLegal, set_order_hash_handler-IsLegal,
}
use titan_explorer.Order.Run.{World, after, handle, run, Task, program, serve}

pub run-Evolve :
    {A : Type 0} (w : Oracle) {p : Prog A} (s : World)
    → IsLegal p
    → Evolve s.orders (run w p s).1.orders
unfolding Program.run after
run-Evolve w s (returns a) = Evolve-refl s.orders
run-Evolve w s crashes = Evolve-refl s.orders
run-Evolve w s (calls {c} l ls) =
    Evolve-trans (effect-Evolve w s.tick c s.orders l)
      (run-Evolve w (after w c s) (ls (answer w s.tick c s.orders)))

-- What one call keeps: the programs left are legal, and the table has evolved.
advance-IsLegal :
    (w : Oracle) (i : ℕ) (ps : List (Prog (Unit {0}))) (s : World)
    → All IsLegal ps
    → let (ps', s') = advance (handle w) i ps s in All IsLegal ps' × Evolve s.orders s'.orders
unfolding advance after
advance-IsLegal w i [] s l = (tt, Evolve-refl s.orders)
advance-IsLegal w zero (ret a ∷ ps) s l = (l, Evolve-refl s.orders)
advance-IsLegal w zero (crash ∷ ps) s l = (l, Evolve-refl s.orders)
advance-IsLegal w zero (call c k ∷ ps) s (l, ls) =
    let (now, rest) = called l in
    ((rest (answer w s.tick c s.orders), ls), effect-Evolve w s.tick c s.orders now)
advance-IsLegal w (suc i) (p ∷ ps) s (l, ls) =
    let (ls', e) = advance-IsLegal w i ps s ls in ((l, ls'), e)

interleave-Evolve :
    (w : Oracle) (is : List ℕ) (ps : List (Prog (Unit {0}))) (s : World)
    → All IsLegal ps
    → Evolve s.orders (interleave (handle w) is ps s).1.orders
unfolding interleave
interleave-Evolve w [] ps s l = Evolve-refl s.orders
interleave-Evolve w (i ∷ is) ps s l =
    let (l', e) = advance-IsLegal w i ps s l in
    Evolve-trans e
      (interleave-Evolve w is (advance (handle w) i ps s).0 (advance (handle w) i ps s).1 l')

answered-IsLegal : (p : Prog Response) → IsLegal p → IsLegal (p >>= λ _. skip)
answered-IsLegal p l = >>=-IsLegal l (λ _. returns tt)

program-IsLegal : (t : Task) → IsLegal (program t)
unfolding program
program-IsLegal (Task.timer n) = rounds-IsLegal n _ timer_round-IsLegal
program-IsLegal (Task.timer2 n) = rounds-IsLegal n _ timer2_round-IsLegal
program-IsLegal (Task.refund id) = answered-IsLegal _ (get_refund_handler-IsLegal id)
program-IsLegal (Task.create a p) = answered-IsLegal _ (create_order_handler-IsLegal a p)
program-IsLegal (Task.terminate a p) = answered-IsLegal _ (terminate_order_handler-IsLegal a p)
program-IsLegal (Task.renewal a p) = answered-IsLegal _ (renewal_order_handler-IsLegal a p)
program-IsLegal (Task.upgrade a p) = answered-IsLegal _ (upgrade_order_handler-IsLegal a p)
program-IsLegal (Task.set_hash a p) = answered-IsLegal _ (set_order_hash_handler-IsLegal a p)

programs-IsLegal : (ts : List Task) → All IsLegal (map program ts)
programs-IsLegal [] = tt
programs-IsLegal (t ∷ ts) = (program-IsLegal t, programs-IsLegal ts)

-- For any number of timers and requests at once, any interleaving of their calls and any answers
-- and failures of the outside: each row of the table stays in its place with its id, account,
-- workspace, cluster, memory and creation time, and its status moves only along the status graph;
-- a row that goes was unpaid; and the rows that are new began as created or as an upgrade.
pub serve-Evolve :
    (w : Oracle) (schedule : List ℕ) (tasks : List Task) (s : World)
    → Evolve s.orders (serve w schedule tasks s).orders
unfolding serve
serve-Evolve w schedule tasks s =
    interleave-Evolve w schedule (map program tasks) s (programs-IsLegal tasks)
