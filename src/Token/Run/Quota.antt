-- ===== src/Token/Run/Quota.antt =====
-- Requests that run one after the other keep to the hourly quota.
use titan_explorer.Base.Program
use titan_explorer.Base.Program.{Outcome, returned, crashed, run->>=-holds}
use titan_explorer.Base.{
  ℕ, Option, none, some, ◌+◌, ◌≤◌, ◌≡◌, subst, String, Bool, true, false, List, [], ◌∷◌, arith,
  if◌then◌else◌,
}
use titan_explorer.Base.Int.{ℤ}
use titan_explorer.Token.Calendar.{Hour, hour_eq, current_hour}
use titan_explorer.Token.Prog.{Cmd, scanned}
use titan_explorer.Token.Store.{
  HourRow, Oracle, select_hour, insert_hour, update_hour, answer, effect,
}
use titan_explorer.Token.Manager.{
  get_or_create_hourly_quota, grant, grant_within, receive_from, receive_tokens,
  receive_token_handler, save_account_receive, update_account_receive,
}
use titan_explorer.Token.Run.{World, after, handle, run}

-- The amount that a request reads for an hour.
abbrev pub issued : Hour → List HourRow → ℕ
issued h t = elim (select_hour h t) [ scanned n ↦ n | _ ↦ 0 ]

issued-update_hour :
    (n : ℕ) (h k : Hour) (t : List HourRow)
    → issued k (update_hour n h t) ≤ issued k t + (if hour_eq h k then n else 0)
unfolding update_hour select_hour hour_eq
issued-update_hour n h k [] = omega arith
issued-update_hour n h k (r ∷ t) = ground (arith, issued-update_hour n h k t)

issued-insert_hour : (h k : Hour) (t : List HourRow) → issued k (insert_hour h t) ≡ issued k t
unfolding insert_hour select_hour
issued-insert_hour h k [] = ground arith
issued-insert_hour h k (r ∷ t) = ground (arith, issued-insert_hour h k t)

pub hour_eq_sound : (h k : Hour) → hour_eq h k ≡ true → h ≡ k
unfolding hour_eq
hour_eq_sound h k e = ground arith

-- A grant counts at most 400 for its hour.
run-grant :
    (w : Oracle) (zone : ℤ) (a : String) (hour k : Hour) (first : Bool) (s : World)
    → issued k (run w (grant zone a hour first) s).1.tables.hours
      ≤ issued k s.tables.hours + (if hour_eq hour k then 400 else 0)
unfolding Program.run grant effect answer save_account_receive update_account_receive
run-grant w zone a hour k true s = ground (arith, issued-update_hour 400 hour k s.tables.hours)
run-grant w zone a hour k false s = ground (arith, issued-update_hour 400 hour k s.tables.hours)

run-grant_within :
    (w : Oracle) (zone : ℤ) (a : String) (hour k : Hour) (n : ℕ) (first : Bool) (s : World)
    → issued hour s.tables.hours ≡ n
    → issued k s.tables.hours ≤ 10_000
    → issued k (run w (grant_within zone a hour n first) s).1.tables.hours ≤ 10_000
unfolding Program.run grant_within
run-grant_within w zone a hour k n first s e b =
    ground (arith, run-grant w zone a hour k first s, hour_eq_sound hour k)

-- The hour's amount is read or created without a change to any amount.
abbrev pub Reads : ℕ → Outcome (Option ℕ) → Type 0
Reads m (returned (some n)) = m ≡ n
Reads m _ = Unit

pub run-get_or_create :
    (w : Oracle) (hour k : Hour) (s : World)
    → let (r, s') = run w (get_or_create_hourly_quota hour) s in
      (issued k s'.tables.hours ≡ issued k s.tables.hours) × Reads (issued hour s'.tables.hours) r
unfolding Program.run get_or_create_hourly_quota effect answer
run-get_or_create w hour k s =
    ground
      (arith, issued-insert_hour hour k s.tables.hours, issued-insert_hour hour hour s.tables.hours)

run-receive_from :
    (w : Oracle) (zone : ℤ) (a : String) (hour k : Hour) (q : Option ℕ) (s : World)
    → Reads (issued hour s.tables.hours) (returned q)
    → issued k s.tables.hours ≤ 10_000
    → issued k (run w (receive_from zone a hour q) s).1.tables.hours ≤ 10_000
unfolding Program.run receive_from effect answer
run-receive_from w zone a hour k none s e b = b
run-receive_from w zone a hour k (some n) s e b =
    let s1 = after w (Cmd.select_last_receive a) s in
    let s2 = after w Cmd.now s1 in
    ground (
      arith,
      run-grant_within w zone a hour k n true s1 e b,
      run-grant_within w zone a hour k n false s1 e b,
      run-grant_within w zone a hour k n false s2 e b,
    )

run-receive_tokens :
    (w : Oracle) (zone : ℤ) (a : String) (k : Hour) (s : World)
    → issued k s.tables.hours ≤ 10_000
    → issued k (run w (receive_tokens zone a) s).1.tables.hours ≤ 10_000
unfolding Program.run receive_tokens effect answer
run-receive_tokens w zone a k s b =
    let s1 = after w Cmd.now s in
    let hour = current_hour zone (w.clock s.tick) in
    let quota = get_or_create_hourly_quota hour in
    let s2 = (run w quota s1).1 in
    let (same, reads) = run-get_or_create w hour k s1 in
    let b2 : issued k s2.tables.hours ≤ 10_000 = omega (arith, b, same) in
    run->>=-holds (handle w) (λ s'. issued k s'.tables.hours ≤ 10_000) quota
      (receive_from zone a hour) s1 b2
      (λ q e.
        run-receive_from w zone a hour k q s2 (subst (Reads (issued hour s2.tables.hours)) e reads)
          b2)

pub run-handler :
    (w : Oracle) (zone : ℤ) (a : String) (k : Hour) (s : World)
    → issued k s.tables.hours ≤ 10_000
    → issued k (run w (receive_token_handler zone a) s).1.tables.hours ≤ 10_000
unfolding receive_token_handler Program.run
run-handler w zone a k s b =
    run->>=-holds (handle w) (λ s'. issued k s'.tables.hours ≤ 10_000) (receive_tokens zone a) _ s
      (run-receive_tokens w zone a k s b) (λ c e. run-receive_tokens w zone a k s b)
