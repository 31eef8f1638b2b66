-- ===== src/Token/Run/Totals.antt =====
-- The sums of the faucet's tables, and what the statements do to them.
use titan_explorer.Base.{
  ℕ, ◌+◌, ◌≤◌, ◌≡◌, refl, String, Bool, true, false, List, [], ◌∷◌, ◌++◌, arith, any, str_eq,
  if◌then◌else◌,
}
use titan_explorer.Token.Calendar.{Hour, hour_eq}
use titan_explorer.Token.Prog.{ReceiveHistory, scanned, Cmd}
use titan_explorer.Token.Store.{
  HourRow, AccountRow, Tables, Oracle, select_hour, insert_hour, update_hour, select_last_receive,
  insert_account, update_account, effect,
}

abbrev pub hours_total : List HourRow → ℕ
hours_total [] = 0
hours_total (r ∷ t) = r.amount + hours_total t

abbrev pub accounts_total : List AccountRow → ℕ
accounts_total [] = 0
accounts_total (r ∷ t) = r.amount + accounts_total t

abbrev pub history_total : List ReceiveHistory → ℕ
history_total [] = 0
history_total (r ∷ t) = r.amount + history_total t

abbrev pub paid_total : List (String × ℕ) → ℕ
paid_total [] = 0
paid_total (r ∷ t) = r.1 + paid_total t

abbrev pub HasHour : Hour → List HourRow → Type 0
HasHour h t = any (λ r. hour_eq r.hour h) t ≡ true

abbrev pub HasAccount : String → List AccountRow → Type 0
HasAccount a t = any (λ r. str_eq r.account a) t ≡ true

pub insert_hour-total :
    (h : Hour) (t : List HourRow) → hours_total (insert_hour h t) ≡ hours_total t
unfolding insert_hour
insert_hour-total h [] = refl
insert_hour-total h (r ∷ t) = ground (arith, insert_hour-total h t)

update_hour-grows :
    (n : ℕ) (h : Hour) (t : List HourRow) → hours_total t ≤ hours_total (update_hour n h t)
unfolding update_hour
update_hour-grows n h [] = omega arith
update_hour-grows n h (r ∷ t) = ground (arith, update_hour-grows n h t)

pub update_hour-total :
    (n : ℕ) (h : Hour) (t : List HourRow)
    → HasHour h t
    → hours_total t + n ≤ hours_total (update_hour n h t)
unfolding update_hour
update_hour-total n h [] e = ground arith
update_hour-total n h (r ∷ t) e = ground (arith, update_hour-total n h t, update_hour-grows n h t)

pub insert_account-total :
    (a : String) (n time : ℕ) (t : List AccountRow)
    → accounts_total (insert_account a n time t) ≡ accounts_total t + n
unfolding insert_account
insert_account-total a n time [] = omega arith
insert_account-total a n time (r ∷ t) = ground (arith, insert_account-total a n time t)

update_account-grows :
    (a : String) (n time : ℕ) (t : List AccountRow)
    → accounts_total t ≤ accounts_total (update_account a n time t)
unfolding update_account
update_account-grows a n time [] = omega arith
update_account-grows a n time (r ∷ t) = ground (arith, update_account-grows a n time t)

pub update_account-total :
    (a : String) (n time : ℕ) (t : List AccountRow)
    → HasAccount a t
    → accounts_total t + n ≤ accounts_total (update_account a n time t)
unfolding update_account
update_account-total a n time [] e = ground arith
update_account-total a n time (r ∷ t) e =
    ground (arith, update_account-total a n time t, update_account-grows a n time t)

pub append-total :
    (r : ReceiveHistory) (t : List ReceiveHistory)
    → history_total (t ++ (r ∷ [])) ≡ history_total t + r.amount
append-total r [] = omega arith
append-total r (q ∷ t) = omega (arith, append-total r t)

-- No statement deletes a row.
insert_hour-HasHour : (h k : Hour) (t : List HourRow) → HasHour k t → HasHour k (insert_hour h t)
unfolding insert_hour
insert_hour-HasHour h k [] e = ground arith
insert_hour-HasHour h k (r ∷ t) e = ground (arith, insert_hour-HasHour h k t)

pub insert_hour-listed : (h : Hour) (t : List HourRow) → HasHour h (insert_hour h t)
unfolding insert_hour hour_eq
insert_hour-listed h [] = ground arith
insert_hour-listed h (r ∷ t) = ground (arith, insert_hour-listed h t)

update_hour-HasHour :
    (n : ℕ) (h k : Hour) (t : List HourRow) → HasHour k t → HasHour k (update_hour n h t)
unfolding update_hour
update_hour-HasHour n h k [] e = e
update_hour-HasHour n h k (r ∷ t) e = ground (arith, update_hour-HasHour n h k t)

insert_account-HasAccount :
    (a b : String) (n time : ℕ) (t : List AccountRow)
    → HasAccount b t
    → HasAccount b (insert_account a n time t)
unfolding insert_account
insert_account-HasAccount a b n time [] e = ground arith
insert_account-HasAccount a b n time (r ∷ t) e =
    ground (arith, insert_account-HasAccount a b n time t)

update_account-HasAccount :
    (a b : String) (n time : ℕ) (t : List AccountRow)
    → HasAccount b t
    → HasAccount b (update_account a n time t)
unfolding update_account
update_account-HasAccount a b n time [] e = e
update_account-HasAccount a b n time (r ∷ t) e =
    ground (arith, update_account-HasAccount a b n time t)

pub select_hour-HasHour :
    (h : Hour) (n : ℕ) (t : List HourRow) → select_hour h t ≡ scanned n → HasHour h t
unfolding select_hour
select_hour-HasHour h n [] e = ground arith
select_hour-HasHour h n (r ∷ t) e = ground (arith, select_hour-HasHour h n t)

pub select_last_receive-HasAccount :
    (a : String) (n : ℕ) (t : List AccountRow)
    → select_last_receive a t ≡ scanned n
    → HasAccount a t
unfolding select_last_receive
select_last_receive-HasAccount a n [] e = ground arith
select_last_receive-HasAccount a n (r ∷ t) e = ground (arith, select_last_receive-HasAccount a n t)

pub record Grows (t t' : Tables) : Type 0 where
  pub hours_stay : (h : Hour) → HasHour h t.hours → HasHour h t'.hours
  pub accounts_stay : (a : String) → HasAccount a t.accounts → HasAccount a t'.accounts

pub Grows-refl : (t : Tables) → Grows t t
Grows-refl t = record { hours_stay = λ h e. e; accounts_stay = λ a e. e }

pub insert_hour-Grows :
    (h : Hour) (t : Tables) → Grows t (record t { hours = insert_hour h t.hours })
insert_hour-Grows h t = record {
  hours_stay = λ k e. insert_hour-HasHour h k t.hours e;
  accounts_stay = λ a e. e;
}

pub update_hour-Grows :
    (n : ℕ) (h : Hour) (t : Tables) → Grows t (record t { hours = update_hour n h t.hours })
update_hour-Grows n h t = record {
  hours_stay = λ k e. update_hour-HasHour n h k t.hours e;
  accounts_stay = λ a e. e;
}

pub insert_account-Grows :
    (a : String) (n time : ℕ) (t : Tables)
    → Grows t (record t { accounts = insert_account a n time t.accounts })
insert_account-Grows a n time t = record {
  hours_stay = λ k e. e;
  accounts_stay = λ b e. insert_account-HasAccount a b n time t.accounts e;
}

pub update_account-Grows :
    (a : String) (n time : ℕ) (t : Tables)
    → Grows t (record t { accounts = update_account a n time t.accounts })
update_account-Grows a n time t = record {
  hours_stay = λ k e. e;
  accounts_stay = λ b e. update_account-HasAccount a b n time t.accounts e;
}

pub paid-Grows : (t : Tables) (l : List (String × ℕ)) → Grows t (record t { paid = l })
paid-Grows t l = record { hours_stay = λ k e. e; accounts_stay = λ a e. e }

pub history-Grows : (t : Tables) (l : List ReceiveHistory) → Grows t (record t { history = l })
history-Grows t l = record { hours_stay = λ k e. e; accounts_stay = λ a e. e }

unless-Grows : (b : Bool) {t t' : Tables} → Grows t t' → Grows t (if b then t else t')
unless-Grows true {t} g = Grows-refl t
unless-Grows false g = g

pub effect-Grows : (w : Oracle) (n : ℕ) (c : Cmd) (t : Tables) → Grows t (effect w n c t)
unfolding effect
effect-Grows w n (Cmd.insert_hour h) t = unless-Grows (w.fails n) (insert_hour-Grows h t)
effect-Grows w n (Cmd.update_hour m h) t = unless-Grows (w.fails n) (update_hour-Grows m h t)
effect-Grows w n (Cmd.insert_account a m time) t =
    unless-Grows (w.fails n) (insert_account-Grows a m time t)
effect-Grows w n (Cmd.update_account a m time) t =
    unless-Grows (w.fails n) (update_account-Grows a m time t)
effect-Grows w n (Cmd.insert_history r) t = unless-Grows (w.fails n) (history-Grows t _)
effect-Grows w n (Cmd.transfer a m) t = unless-Grows (w.fails n) (paid-Grows t _)
effect-Grows w n Cmd.now t = Grows-refl t
effect-Grows w n (Cmd.select_hour h) t = Grows-refl t
effect-Grows w n (Cmd.select_last_receive a) t = Grows-refl t
effect-Grows w n (Cmd.load_history a o l) t = Grows-refl t
effect-Grows w n (Cmd.count_history a) t = Grows-refl t
