-- ===== src/Token/Prog.antt =====
-- The calls of the faucet to the outside: the clock, the statements, the chain.
use titan_explorer.Base.{ℕ, String, Bool, Option, List}
use titan_explorer.Base.Program.{Program}
use titan_explorer.Token.Calendar.{Hour}
pub use titan_explorer.Base.Sql.{Scan, scan_error, no_rows, scanned}

-- `ReceiveHistory`; the database sets `created_at`.
pub record ReceiveHistory : Type 0 where
  pub account : String
  pub amount : ℕ
  pub hash : String
  pub created_at : ℕ

pub data Cmd : Type 0 where
  now : Cmd
  select_hour insert_hour : Hour → Cmd
  update_hour : ℕ → Hour → Cmd
  select_last_receive : String → Cmd
  insert_account update_account : String → ℕ → ℕ → Cmd
  insert_history : ReceiveHistory → Cmd
  transfer : String → ℕ → Cmd
  load_history : String → ℕ → ℕ → Cmd
  count_history : String → Cmd

-- `true`: the error of a statement is not nil. A transfer answers the hash of its transaction.
abbrev pub Resp : Cmd → Type 0
Resp Cmd.now = ℕ
Resp (Cmd.select_hour _) = Scan ℕ
Resp (Cmd.select_last_receive _) = Scan ℕ
Resp (Cmd.transfer _ _) = Option String
Resp (Cmd.load_history _ _ _) = Option (List ReceiveHistory)
Resp (Cmd.count_history _) = Option ℕ
Resp _ = Bool

abbrev pub Prog : Type 0 → Type 0
Prog A = Program Cmd Resp A
