-- ===== src/Token/Store.antt =====
-- The faucet's tables and its statements in core/dao/platform.go, with the transfers that the chain
-- has made. A statement is atomic; one that fails changes nothing, nor does a transfer that fails.
-- The tables' schema is not in the repository: no key is taken to be unique.
use titan_explorer.Base.{
  ℕ, ◌+◌, String, Bool, List, [], ◌∷◌, ◌++◌, if◌then◌else◌, str_eq, keep, drop, take, length, ltb,
  ◌==◌, ◌&&◌, ◌||◌,
}
use titan_explorer.Base.Sql.{scan_unless, unless_fails}
use titan_explorer.Token.Calendar.{Hour, hour_eq}
use titan_explorer.Token.Prog.{ReceiveHistory, Cmd, Scan, no_rows, scanned, Resp}

pub record HourRow : Type 0 where
  pub hour : Hour
  pub amount : ℕ

pub record AccountRow : Type 0 where
  pub account : String
  pub amount : ℕ
  pub last_receive : ℕ

pub record Tables : Type 0 where
  pub hours : List HourRow
  pub accounts : List AccountRow
  pub history : List ReceiveHistory
  pub paid : List (String × ℕ)

-- What the outside answers at the n-th call. `tie n r q` says whether the database puts the row q
-- before r where both have the same time.
pub record Oracle : Type 0 where
  pub fails : ℕ → Bool
  pub clock : ℕ → ℕ
  pub hash : ℕ → String
  pub tie : ℕ → ReceiveHistory → ReceiveHistory → Bool

-- `SELECT amount … WHERE hour = ?`: the first row.
unfoldable pub select_hour : Hour → List HourRow → Scan ℕ
unfolding hour_eq
select_hour h [] = no_rows
select_hour h (r ∷ t) = if hour_eq r.hour h then scanned r.amount else select_hour h t

unfoldable pub insert_hour : Hour → List HourRow → List HourRow
insert_hour h t = t ++ (record { hour = h; amount = 0 } ∷ [])

unfoldable pub update_hour : ℕ → Hour → List HourRow → List HourRow
unfolding hour_eq
update_hour n h [] = []
update_hour n h (r ∷ t) =
    (if hour_eq r.hour h then record r { amount = r.amount + n } else r) ∷ update_hour n h t

unfoldable pub select_last_receive : String → List AccountRow → Scan ℕ
select_last_receive a [] = no_rows
select_last_receive a (r ∷ t) =
    if str_eq r.account a then scanned r.last_receive else select_last_receive a t

unfoldable pub insert_account : String → ℕ → ℕ → List AccountRow → List AccountRow
insert_account a n time t = t ++ (record { account = a; amount = n; last_receive = time } ∷ [])

unfoldable pub update_account : String → ℕ → ℕ → List AccountRow → List AccountRow
update_account a n time [] = []
update_account a n time (r ∷ t) =
    (if str_eq r.account a then record r { amount = r.amount + n; last_receive = time } else r)
    ∷ update_account a n time t

-- `ORDER BY created_at DESC`; among equal times the order is open, and `before r q` says whether q
-- comes before r.
module _ (before : ReceiveHistory → ReceiveHistory → Bool) where
  unfoldable pub insert_desc : ReceiveHistory → List ReceiveHistory → List ReceiveHistory
  insert_desc r [] = r ∷ []
  insert_desc r (q ∷ t) =
      if ltb r.created_at q.created_at || (r.created_at == q.created_at && before r q)
      then q ∷ insert_desc r t
      else r ∷ q ∷ t

  unfoldable pub sort_desc : List ReceiveHistory → List ReceiveHistory → List ReceiveHistory
  unfolding insert_desc
  sort_desc done [] = done
  sort_desc done (r ∷ t) = sort_desc (insert_desc r done) t

abbrev pub of_account : String → List ReceiveHistory → List ReceiveHistory
of_account a t = keep (λ r. str_eq r.account a) t

unfoldable pub select_history :
    (ReceiveHistory → ReceiveHistory → Bool)
    → String
    → ℕ
    → ℕ
    → List ReceiveHistory
    → List ReceiveHistory
unfolding sort_desc
select_history before a offset limit t =
    take limit (drop offset (sort_desc before [] (of_account a t)))

unfoldable pub answer : Oracle → ℕ → (c : Cmd) → Tables → Resp c
unfolding select_hour select_last_receive select_history
answer w n Cmd.now t = w.clock n
answer w n (Cmd.select_hour h) t = scan_unless (w.fails n) (select_hour h t.hours)
answer w n (Cmd.insert_hour h) t = w.fails n
answer w n (Cmd.update_hour a h) t = w.fails n
answer w n (Cmd.select_last_receive a) t =
    scan_unless (w.fails n) (select_last_receive a t.accounts)
answer w n (Cmd.insert_account a m time) t = w.fails n
answer w n (Cmd.update_account a m time) t = w.fails n
answer w n (Cmd.insert_history r) t = w.fails n
answer w n (Cmd.transfer a m) t = unless_fails (w.fails n) (w.hash n)
answer w n (Cmd.load_history a offset limit) t =
    unless_fails (w.fails n) (select_history (w.tie n) a offset limit t.history)
answer w n (Cmd.count_history a) t = unless_fails (w.fails n) (length (of_account a t.history))

-- The tables after the n-th call.
unfoldable pub effect : Oracle → ℕ → Cmd → Tables → Tables
unfolding insert_hour update_hour insert_account update_account
effect w n (Cmd.insert_hour h) t =
    if w.fails n then t else record t { hours = insert_hour h t.hours }
effect w n (Cmd.update_hour a h) t =
    if w.fails n then t else record t { hours = update_hour a h t.hours }
effect w n (Cmd.insert_account a m time) t =
    if w.fails n then t else record t { accounts = insert_account a m time t.accounts }
effect w n (Cmd.update_account a m time) t =
    if w.fails n then t else record t { accounts = update_account a m time t.accounts }
effect w n (Cmd.insert_history r) t =
    if w.fails n
    then t
    else record t { history = t.history ++ (record r { created_at = w.clock n } ∷ []) }
effect w n (Cmd.transfer a m) t = if w.fails n then t else record t { paid = (a, m) ∷ t.paid }
effect w n _ t = t
