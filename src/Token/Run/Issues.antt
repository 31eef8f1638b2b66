-- ===== src/Token/Run/Issues.antt =====
-- What a request transfers is counted for its hour; so an hour's transfers keep to the quota.
use titan_explorer.Base.Program
use titan_explorer.Base.Program.{ret, Outcome, returned, crashed, run->>=-holds}
use titan_explorer.Base.{
  ℕ, Option, none, some, ◌+◌, ◌-◌, ◌≤◌, ◌≡◌, subst, String, Bool, true, false, List, [], ◌∷◌, arith,
  if◌then◌else◌, if-holds, ltb, ap, Bool-cases, inl, inr,
}
use titan_explorer.Base.Int.{ℤ}
use titan_explorer.Token.Calendar.{Hour, hour_eq, current_hour}
use titan_explorer.Token.Prog.{Cmd, scanned, Prog, no_rows}
use titan_explorer.Token.Store.{
  HourRow, Tables, Oracle, select_hour, insert_hour, update_hour, answer, effect,
}
use titan_explorer.Token.Manager.{
  hourly_quota, max_user_quota, quota_issued, get_or_create_hourly_quota, grant, grant_within,
  receive_from, receive_tokens, receive_token_handler, save_account_receive, update_account_receive,
}
use titan_explorer.Token.Run.{World, after, handle, run, serve_each}
use titan_explorer.Token.Run.Quota.{issued, run-handler, run-get_or_create, hour_eq_sound}

-- The amounts of all transfers.
abbrev pub total_paid : List (String × ℕ) → ℕ
total_paid [] = 0
total_paid (p ∷ t) = p.1 + total_paid t

-- Between two states, an hour's count grows by at least what is transferred; other hours' counts do
-- not shrink.
record Counts (hour : Hour) (t t' : Tables) : Type 0 where
  counted : issued hour t.hours + total_paid t'.paid ≤ issued hour t'.hours + total_paid t.paid
  grows : (k : Hour) → issued k t.hours ≤ issued k t'.hours
  paid : total_paid t.paid ≤ total_paid t'.paid

Counts-refl : (hour : Hour) (t : Tables) → Counts hour t t
Counts-refl hour t = record { counted = omega arith; grows = λ k. omega arith; paid = omega arith }

issued-grows : (n : ℕ) (h k : Hour) (t : List HourRow) → issued k t ≤ issued k (update_hour n h t)
unfolding update_hour select_hour
issued-grows n h k [] = omega arith
issued-grows n h k (r ∷ t) = ground (arith, issued-grows n h k t)

issued-row :
    (n m : ℕ) (h : Hour) (t : List HourRow)
    → select_hour h t ≡ scanned m
    → issued h (update_hour n h t) ≡ issued h t + n
unfolding update_hour select_hour
issued-row n m h [] e = ground (arith, e)
issued-row n m h (r ∷ t) e = ground (arith, e, issued-row n m h t)

module _ (w : Oracle) (zone : ℤ) (a : String) (hour : Hour) where
  run-grant-Counts :
      (n : ℕ) (first : Bool) (s : World)
      → select_hour hour s.tables.hours ≡ scanned n
      → Counts hour s.tables (run w (grant zone a hour first) s).1.tables
  unfolding Program.run grant effect answer save_account_receive update_account_receive
  run-grant-Counts n first s e = record {
    counted = counted first;
    grows = λ k. grown first k;
    paid = more first;
  }
    where
      after_grant : Bool → Tables
      after_grant f = (run w (grant zone a hour f) s).1.tables

      counted :
          (f : Bool)
          → issued hour s.tables.hours + total_paid (after_grant f).paid
            ≤ issued hour (after_grant f).hours + total_paid s.tables.paid
      counted true = ground (arith, issued-row 400 n hour s.tables.hours e)
      counted false = ground (arith, issued-row 400 n hour s.tables.hours e)

      grown : (f : Bool) (k : Hour) → issued k s.tables.hours ≤ issued k (after_grant f).hours
      grown true k = ground (arith, issued-grows 400 hour k s.tables.hours)
      grown false k = ground (arith, issued-grows 400 hour k s.tables.hours)

      more : (f : Bool) → total_paid s.tables.paid ≤ total_paid (after_grant f).paid
      more true = ground arith
      more false = ground arith

  Counts-trans : {t t' t'' : Tables} → Counts hour t t' → Counts hour t' t'' → Counts hour t t''
  Counts-trans c d = record {
    counted = omega (arith, c.counted, d.counted);
    grows = λ k. omega (arith, c.grows k, d.grows k);
    paid = omega (arith, c.paid, d.paid);
  }

  grant_within-Counts :
      (n : ℕ) (first : Bool) (s : World)
      → select_hour hour s.tables.hours ≡ scanned n
      → Counts hour s.tables (run w (grant_within zone a hour n first) s).1.tables
  unfolding Program.run grant_within
  grant_within-Counts n first s e =
      if-holds (λ (p : Prog ℕ). Counts hour s.tables (run w p s).1.tables)
        (ltb hourly_quota (n + max_user_quota)) (ret quota_issued) (grant zone a hour first)
        (λ _. Counts-refl hour s.tables) (λ _. run-grant-Counts n first s e)

  -- The row that the request goes by, once it is read or inserted.
  abbrev Row : Tables → Outcome (Option ℕ) → Type 0
  Row t (returned (some n)) = select_hour hour t.hours ≡ scanned n
  Row t _ = Unit

  select-insert_hour :
      (t : List HourRow)
      → select_hour hour t ≡ no_rows
      → select_hour hour (insert_hour hour t) ≡ scanned 0
  unfolding select_hour insert_hour
  select-insert_hour [] e = ground arith
  select-insert_hour (r ∷ t) e = ground (arith, e, select-insert_hour t)

  get_or_create-Row :
      (s : World)
      → let (r, s') = run w (get_or_create_hourly_quota hour) s in
        (s'.tables.paid ≡ s.tables.paid) × Row s'.tables r
  unfolding Program.run get_or_create_hourly_quota effect answer
  get_or_create-Row s = ground (arith, select-insert_hour s.tables.hours)

  get_or_create-Counts :
      (s : World) → Counts hour s.tables (run w (get_or_create_hourly_quota hour) s).1.tables
  get_or_create-Counts s = record {
    counted =
        omega (arith, (run-get_or_create w hour hour s).0, ap total_paid (get_or_create-Row s).0);
    grows = λ k. omega (arith, (run-get_or_create w hour k s).0);
    paid = omega (arith, ap total_paid (get_or_create-Row s).0);
  }

  receive_from-Counts :
      (q : Option ℕ) (s : World)
      → Row s.tables (returned q)
      → Counts hour s.tables (run w (receive_from zone a hour q) s).1.tables
  unfolding Program.run receive_from effect answer
  receive_from-Counts none s e = Counts-refl hour s.tables
  receive_from-Counts (some n) s e =
      let s1 = after w (Cmd.select_last_receive a) s in
      let s2 = after w Cmd.now s1 in
      let first = grant_within-Counts n true s1 e in
      let again = grant_within-Counts n false s1 e in
      let later = grant_within-Counts n false s2 e in
      record {
        counted = ground (arith, first.counted, again.counted, later.counted);
        grows = λ k. ground (arith, first.grows k, again.grows k, later.grows k);
        paid = ground (arith, first.paid, again.paid, later.paid);
      }

-- The hour that a request begins in.
abbrev pub hour_of : Oracle → ℤ → World → Hour
hour_of w zone s = current_hour zone (w.clock s.tick)

receive_tokens-Counts :
    (w : Oracle) (zone : ℤ) (a : String) (s : World)
    → Counts (hour_of w zone s) s.tables (run w (receive_tokens zone a) s).1.tables
unfolding Program.run receive_tokens effect answer
receive_tokens-Counts w zone a s =
    let hour = hour_of w zone s in
    let s1 = after w Cmd.now s in
    let quota = get_or_create_hourly_quota hour in
    let s2 = (run w quota s1).1 in
    let c = get_or_create-Counts w zone a hour s1 in
    run->>=-holds (handle w) (λ s'. Counts hour s.tables s'.tables) quota (receive_from zone a hour)
      s1 c
      (λ q e. Counts-trans w zone a hour c (
        receive_from-Counts w zone a hour q s2
          (subst (Row w zone a hour s2.tables) e (get_or_create-Row w zone a hour s1).1)))

handler-Counts :
    (w : Oracle) (zone : ℤ) (a : String) (s : World)
    → Counts (hour_of w zone s) s.tables (run w (receive_token_handler zone a) s).1.tables
unfolding receive_token_handler Program.run
handler-Counts w zone a s =
    run->>=-holds (handle w) (λ s'. Counts (hour_of w zone s) s.tables s'.tables)
      (receive_tokens zone a) _ s (receive_tokens-Counts w zone a s)
      (λ c e. receive_tokens-Counts w zone a s)

-- What the requests transfer that begin in an hour.
abbrev pub granted : Oracle → ℤ → Hour → List String → World → ℕ
granted w zone k [] s = 0
granted w zone k (a ∷ rest) s =
    let s' = (run w (receive_token_handler zone a) s).1 in
    (if hour_eq (hour_of w zone s) k
      then total_paid s'.tables.paid - total_paid s.tables.paid
      else 0)
    + granted w zone k rest s'

-- Requests that run one after the other, whatever the clock and the failures of the statements and of
-- the chain, if no hour's count is above the quota at the start: what is transferred by the requests
-- that begin in an hour and what the hour had issued before come to at most 10000, and so does the
-- hour's count at the end.
pub serve_each_within_quota :
    (w : Oracle) (zone : ℤ) (accounts : List String) (s : World)
    → ((k : Hour) → issued k s.tables.hours ≤ 10_000)
    → (k : Hour)
    → (issued k s.tables.hours + granted w zone k accounts s ≤ 10_000)
      × (issued k (serve_each w zone accounts s).tables.hours ≤ 10_000)
unfolding serve_each
serve_each_within_quota w zone [] s b k = (omega (arith, b k), b k)
serve_each_within_quota w zone (a ∷ rest) s b k =
    let s' = (run w (receive_token_handler zone a) s).1 in
    let c = handler-Counts w zone a s in
    let (spent, within) =
      serve_each_within_quota w zone rest s' (λ k'. run-handler w zone a k' s (b k')) k in
    (
      elim (Bool-cases (hour_eq (hour_of w zone s) k)) [
        | inl e ↦
            let at : hour_of w zone s ≡ k = hour_eq_sound (hour_of w zone s) k e in
            rw e (
              omega (
                arith,
                spent,
                c.paid,
                subst
                    (λ h.
                      issued h s.tables.hours + total_paid s'.tables.paid
                      ≤ issued h s'.tables.hours + total_paid s.tables.paid)
                    at c.counted,
              ))
        | inr e ↦ rw e (omega (arith, spent, c.grows k))
      ],
      within,
    )
