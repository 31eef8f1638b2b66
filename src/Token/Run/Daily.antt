-- ===== src/Token/Run/Daily.antt =====
-- Requests that run one after the other give an account tokens once a day.
use titan_explorer.Base.Program
use titan_explorer.Base.Program.{Outcome, returned, crashed}
use titan_explorer.Base.{String}
use titan_explorer.Token.Prog.{Prog}
use titan_explorer.Token.Store.{Oracle}
use titan_explorer.Token.Run.{World, run}
use titan_explorer.Token.Run.Gives.{Gives}

-- A program that does so when it runs from `s`.
data GivesFrom {A : Type 0} (w : Oracle) (a : String) (s : World) (p : Prog A) : Type 0 where
  gives : Gives w a s.tables (run w p s).1.tables → GivesFrom w a s p
