-- ===== src/Token/Run/Gives.antt =====
-- What a grant of core/token/manager.go may do to an account.
use titan_explorer.Base.Program
use titan_explorer.Base.Program.{Outcome, returned, crashed, run->>=-holds, ret, call}
use titan_explorer.Base.{
  ℕ, subst, ◌≢◌, ◌+◌, ◌/◌, ◌%◌, ◌<◌, ◌≤◌, ◌≡◌, refl, ◌⊎◌, inl, inr, String, true, false, List, [],
  ◌∷◌, arith, if◌then◌else◌, str_eq, eq_iff,
}
use titan_explorer.Base.Int.{ℤ}
use titan_explorer.Token.Calendar.{Hour, day_ns, local, is_today, is_zero}
use titan_explorer.Token.Prog.{no_rows, scanned}
use titan_explorer.Token.Store.{
  AccountRow, Tables, Oracle, select_last_receive, insert_account, update_account, answer, effect,
}
use titan_explorer.Token.Manager.{grant, save_account_receive, update_account_receive}
use titan_explorer.Token.Run.{World, run}

-- The transfers to an account.
abbrev pub transfers : String → List (String × ℕ) → ℕ
transfers a [] = 0
transfers a (p ∷ t) = (if str_eq p.0 a then 1 else 0) + transfers a t

-- All readings of the clock are after midnight on the same local day, and after Go's zero time.
pub record IsOneDay (w : Oracle) (zone : ℤ) : Type 0 where
  pub day : ℕ
  pub same : (n : ℕ) → local zone (w.clock n) / day_ns ≡ day
  pub past_midnight : (n : ℕ) → 0 < local zone (w.clock n) % day_ns
  pub past_zero : (n : ℕ) → 0 < w.clock n

-- What the code's two tests answer on such a day.
pub is_today_within :
    {w : Oracle} {zone : ℤ}
    → IsOneDay w zone
    → (n m : ℕ) → is_today zone (w.clock n) (w.clock m) ≡ true
unfolding is_today
is_today_within d n m = ground (arith, d.same n, d.same m, d.past_midnight m)

pub is_zero_within :
    {w : Oracle} {zone : ℤ} → IsOneDay w zone → (n : ℕ) → is_zero (w.clock n) ≡ false
unfolding is_zero
is_zero_within d n = ground (arith, d.past_zero n)

-- The account is marked with a time of this day.
abbrev pub IsMarked : Oracle → String → Tables → Type 0
IsMarked w a t = (n : ℕ) × (select_last_receive a t.accounts ≡ scanned (w.clock n))

select-insert_account :
    (a b : String) (m time : ℕ) (t : List AccountRow)
    → select_last_receive a (insert_account b m time t) ≡ elim (select_last_receive a t) [
      | no_rows ↦ if str_eq b a then scanned time else no_rows
      | r ↦ r
    ]
unfolding select_last_receive insert_account
select-insert_account a b m time [] = refl
select-insert_account a b m time (r ∷ t) = ground (arith, select-insert_account a b m time t)

select-update_account :
    (a b : String) (m time : ℕ) (t : List AccountRow)
    → select_last_receive a (update_account b m time t) ≡ elim (select_last_receive a t) [
      | scanned u ↦ scanned (if str_eq b a then time else u)
      | r ↦ r
    ]
unfolding select_last_receive update_account
select-update_account a b m time [] = refl
select-update_account a b m time (r ∷ t) =
    ground (
      arith,
      select-update_account a b m time t,
      eq_iff r.account a,
      eq_iff r.account b,
      eq_iff b a,
    )

-- What a request may do to the account `a`: nothing, or, if it was not marked, mark it and pay it at
-- most once.
pub data Gives (w : Oracle) (a : String) (t t' : Tables) : Type 0 where
  nothing :
      select_last_receive a t'.accounts ≡ select_last_receive a t.accounts
      → transfers a t'.paid ≡ transfers a t.paid
      → Gives w a t t'
  pays :
      ((n : ℕ) → select_last_receive a t.accounts ≢ scanned (w.clock n))
      → IsMarked w a t'
      → transfers a t'.paid ≤ transfers a t.paid + 1
      → Gives w a t t'

-- The same for a grant to `b`, as facts of one call of it.
abbrev pub Grants : String → String → ℕ → Tables → Tables → Type 0
Grants a b time t t' =
    (select_last_receive a t'.accounts ≡ select_last_receive a t.accounts)
      × (transfers a t'.paid ≡ transfers a t.paid)
    ⊎ (b ≡ a)
      × (select_last_receive a t'.accounts ≡ scanned time)
      × (transfers a t'.paid ≤ transfers a t.paid + 1)

pub run-grant_first :
    (w : Oracle) (zone : ℤ) (a b : String) (hour : Hour) (s : World)
    → select_last_receive b s.tables.accounts ≡ no_rows
    → Grants a b (w.clock s.tick) s.tables (run w (grant zone b hour true) s).1.tables
unfolding Program.run grant effect answer save_account_receive
run-grant_first w zone a b hour s e =
    ground (arith, select-insert_account a b 400 (w.clock s.tick) s.tables.accounts, eq_iff b a)

pub run-grant_again :
    (w : Oracle) (zone : ℤ) (a b : String) (hour : Hour) (u : ℕ) (s : World)
    → select_last_receive b s.tables.accounts ≡ scanned u
    → Grants a b (w.clock s.tick) s.tables (run w (grant zone b hour false) s).1.tables
unfolding Program.run grant effect answer update_account_receive
run-grant_again w zone a b hour u s e =
    ground (arith, select-update_account a b 400 (w.clock s.tick) s.tables.accounts, eq_iff b a)

pub Grants-Gives :
    (w : Oracle) (a b : String) (m : ℕ) (t t' : Tables)
    → ((n : ℕ) → select_last_receive b t.accounts ≢ scanned (w.clock n))
    → Grants a b (w.clock m) t t'
    → Gives w a t t'
Grants-Gives w a b m t t' f (inl (e, p)) = nothing e p
Grants-Gives w a b m t t' f (inr (same, e, p)) =
    pays (subst (λ c. (n : ℕ) → select_last_receive c t.accounts ≢ scanned (w.clock n)) same f)
      (m, e) p
