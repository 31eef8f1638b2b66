-- ===== src/Token/Tests.antt =====
-- The faucet at concrete inputs: runs, and the theorems at values that meet their hypotheses.
use titan_explorer.Base.Program
use titan_explorer.Base.Program.{returned, advance}
use titan_explorer.Base.{ℕ, String, ltb, ◌+◌, ◌-◌, ◌*◌, ◌≤◌, ◌≡◌, refl, false, [], ◌∷◌, arith}
use titan_explorer.Base.Int.{pos}
use titan_explorer.Token.Calendar.{Hour, current_hour, hour_ns, day_ns}
use titan_explorer.Token.Store.{Oracle, sort_desc, select_history, select_hour, answer, effect}
use titan_explorer.Token.Manager.{
  error_code, success, received_code, receive_token_handler, load_receive_history,
}
use titan_explorer.Token.Run.{World, run, serve_each, Task, serve}
use titan_explorer.Token.Prog.{ReceiveHistory}
use titan_explorer.Token.Run.History.{pages, pages-all}
use titan_explorer.Token.Run.Quota.{issued}
use titan_explorer.Token.Run.Issues.{granted, serve_each_within_quota}
use titan_explorer.Token.Run.Step.{Covers}
use titan_explorer.Token.Run.Ledger.{serve-Covers}
use titan_explorer.Token.Run.Gives.{transfers}

-- 3 May 2024, 14:30 in UTC.
abbrev now : ℕ
now = 63_850_343_400_000_000_000

abbrev hour : Hour
hour = record { year = 2024; month = 5; day = 3; hour = 14 }

hour_of_now : current_hour (pos 0) now ≡ hour
unfolding current_hour
hour_of_now = refl

-- In Shanghai the day is over at 16:00 in UTC.
shanghai :
    current_hour (pos (8 * hour_ns)) (now + 2 * hour_ns)
    ≡ record { year = 2024; month = 5; day = 4; hour = 0 }
unfolding current_hour
shanghai = refl

leap_day :
    current_hour (pos 0) (now - 65 * day_ns)
    ≡ record { year = 2024; month = 2; day = 28; hour = 14 }
unfolding current_hour
leap_day = refl

abbrev oracle : Oracle
oracle = record { fails = λ _. false; clock = λ _. now; hash = λ _. "0xhash"; tie = λ _ q r. false }

abbrev empty : World
empty = record { tables = record { hours = []; accounts = []; history = []; paid = [] }; tick = 0 }

abbrev nearly_issued : World
nearly_issued = record {
  tables = record {
    hours = record { hour = hour; amount = 9600 } ∷ [];
    accounts = [];
    history = [];
    paid = [];
  };
  tick = 0;
}

-- A first request is served, a second of the same day refused, and one beyond the quota too.
first_and_second :
    let s = (run oracle (receive_token_handler (pos 0) "titan1a") empty).1 in
    ((run oracle (receive_token_handler (pos 0) "titan1a") empty).0 ≡ returned success)
    × ((run oracle (receive_token_handler (pos 0) "titan1a") s).0
        ≡ returned (error_code received_code))
unfolding Program.run receive_token_handler answer effect
first_and_second = (refl, refl)

-- Two requests at once both read 9600 and both pass the check.
overdrawn :
    issued hour
      (serve oracle
        (pos 0)
        (0 ∷ 1 ∷ 0 ∷ 1 ∷ 0 ∷ 1 ∷ 0 ∷ 1 ∷ 0 ∷ 1 ∷ 0 ∷ 1 ∷ 0 ∷ 1 ∷ 0 ∷ 1 ∷ [])
        (Task.receive "titan1a" ∷ Task.receive "titan1b" ∷ [])
        nearly_issued).1.tables.hours
    ≡ 10_400
unfolding serve advance select_hour answer effect
overdrawn = refl

-- The same account, twice at once.
received_twice :
    transfers "titan1a"
      (serve oracle
        (pos 0)
        (0 ∷ 1 ∷ 0 ∷ 1 ∷ 0 ∷ 1 ∷ 0 ∷ 1 ∷ 0 ∷ 1 ∷ 0 ∷ 1 ∷ 0 ∷ 1 ∷ 0 ∷ 1 ∷ [])
        (Task.receive "titan1a" ∷ Task.receive "titan1a" ∷ [])
        empty).1.tables.paid
    ≡ 2
unfolding serve advance select_hour answer effect
received_twice = refl

nearly_issued-issued : (k : Hour) → issued k nearly_issued.tables.hours ≤ 10_000
unfolding select_hour
nearly_issued-issued k = ground arith

serve_each_within_quota_example :
    (issued hour nearly_issued.tables.hours
        + granted oracle (pos 0) hour ("titan1a" ∷ "titan1b" ∷ []) nearly_issued
      ≤ 10_000)
    × (issued hour
          (serve_each oracle (pos 0) ("titan1a" ∷ "titan1b" ∷ []) nearly_issued).tables.hours
        ≤ 10_000)
serve_each_within_quota_example =
    serve_each_within_quota oracle (pos 0) ("titan1a" ∷ "titan1b" ∷ []) nearly_issued
      nearly_issued-issued hour

empty-Covers : Covers empty.tables 0 0 0
empty-Covers = record {
  accounts_cover = omega arith;
  hours_cover = omega arith;
  payments_cover = omega arith;
}

serve-Covers_example :
    Covers
      (serve oracle
        (pos 0)
        (0 ∷ 1 ∷ 0 ∷ 1 ∷ 0 ∷ 1 ∷ 0 ∷ 1 ∷ 0 ∷ 1 ∷ 0 ∷ 1 ∷ 0 ∷ 1 ∷ [])
        (Task.receive "titan1a" ∷ Task.receive "titan1b" ∷ [])
        empty).1.tables
      0
      0
      0
serve-Covers_example =
    serve-Covers oracle (pos 0) (0 ∷ 1 ∷ 0 ∷ 1 ∷ 0 ∷ 1 ∷ 0 ∷ 1 ∷ 0 ∷ 1 ∷ 0 ∷ 1 ∷ 0 ∷ 1 ∷ [])
      (Task.receive "titan1a" ∷ Task.receive "titan1b" ∷ []) empty empty-Covers

abbrev receipt : ℕ → ReceiveHistory
receipt t = record { account = "titan1a"; amount = 400; hash = "0xhash"; created_at = t }

abbrev with_history : World
with_history = record {
  tables = record {
    hours = [];
    accounts = [];
    history = receipt 1 ∷ receipt 3 ∷ receipt 2 ∷ [];
    paid = [];
  };
  tick = 0;
}

-- Two pages of two rows.
pages-all_example : pages oracle "titan1a" 2 2 with_history ≡ receipt 3 ∷ receipt 2 ∷ receipt 1 ∷ []
unfolding sort_desc
pages-all_example =
    pages-all oracle "titan1a" 2 2 with_history (λ k. refl)
      ((refl, (refl, tt)), ((refl, tt), (tt, tt))) (omega arith) (omega arith) (omega arith)
      (omega arith)

abbrev same_time : String → ReceiveHistory
same_time hash = record { account = "titan1a"; amount = 400; hash = hash; created_at = 1 }

-- The database turns the order of two receipts of one time around from the first page to the second.
abbrev turning : Oracle
turning = record oracle { tie = λ n q r. ltb 1 n }

page_repeats :
    pages turning "titan1a" 1 2 (record with_history {
      tables = record with_history.tables { history = same_time "x" ∷ same_time "y" ∷ [] };
    })
    ≡ same_time "y" ∷ same_time "y" ∷ []
unfolding load_receive_history select_history Program.run answer effect
page_repeats = refl
