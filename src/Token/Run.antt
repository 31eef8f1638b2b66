-- ===== src/Token/Run.antt =====
-- Running faucet requests: one alone, a sequence, or many with their calls interleaved.
pub mod Totals
pub mod Spends
pub mod Step
pub mod Ledger
pub mod History
pub mod Quota
pub mod Issues
pub mod Gives
pub mod Daily
use titan_explorer.Base.{ℕ, suc, String, List, [], ◌∷◌, map}
use titan_explorer.Base.Int.{ℤ}
use titan_explorer.Base.Program
use titan_explorer.Base.Program.{Outcome, Program, interleave}
use titan_explorer.Token.Prog.{Cmd, Resp, Prog}
use titan_explorer.Token.Store.{Tables, Oracle, answer, effect}
use titan_explorer.Token.Manager.{
  Response, receive_token_handler, get_distributed_amount_handler, get_receive_history_handler,
}

-- The tables and the number of calls so far.
pub record World : Type 0 where
  pub tables : Tables
  pub tick : ℕ

abbrev pub after : Oracle → Cmd → World → World
after w c s = record { tables = effect w s.tick c s.tables; tick = suc s.tick }

abbrev pub handle : Oracle → (c : Cmd) → World → Resp c × World
handle w c s = (answer w s.tick c s.tables, after w c s)

abbrev pub run : {A : Type 0} → Oracle → Prog A → World → Outcome A × World
run w = Program.run (handle w)

-- Requests of these accounts, one after the other.
unfoldable pub serve_each : Oracle → ℤ → List String → World → World
unfolding Program.run receive_token_handler
serve_each w zone [] s = s
serve_each w zone (a ∷ rest) s = serve_each w zone rest (run w (receive_token_handler zone a) s).1

-- A request to the faucet.
pub data Task : Type 0 where
  receive distributed : String → Task
  history : String → ℤ → ℤ → Task

unfoldable pub program : ℤ → Task → Prog Response
unfolding receive_token_handler get_distributed_amount_handler get_receive_history_handler
program zone (Task.receive id) = receive_token_handler zone id
program zone (Task.distributed id) = get_distributed_amount_handler zone id
program zone (Task.history account page size) = get_receive_history_handler account page size

-- Requests at once, by any schedule.
unfoldable pub serve : Oracle → ℤ → List ℕ → List Task → World → List (Prog Response) × World
unfolding interleave program
serve w zone schedule tasks s = interleave (handle w) schedule (map (program zone) tasks) s
