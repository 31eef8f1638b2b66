-- ===== src/Token/Run/Step.antt =====
-- One call of a program that moves tokens keeps its debts covered.
use titan_explorer.Base.Program.{call}
use titan_explorer.Base.{
  ℕ, ◌+◌, ◌≤◌, ◌≡◌, refl, String, Bool, true, false, Option, none, some, arith, if◌then◌else◌,
}
use titan_explorer.Token.Calendar.{Hour}
use titan_explorer.Token.Prog.{Cmd, Scan, scan_error, no_rows, scanned, Resp, Prog}
use titan_explorer.Token.Store.{Tables, Oracle, answer, effect, select_hour, select_last_receive}
use titan_explorer.Base.Sql.{scan_unless, unless_fails}
use titan_explorer.Token.Run.Totals.{
  hours_total, accounts_total, history_total, paid_total, HasHour, HasAccount, insert_hour-total,
  paid-Grows, history-Grows, insert_hour-Grows, update_hour-Grows, insert_account-Grows,
  update_account-Grows, insert_hour-listed, update_hour-total, insert_account-total,
  update_account-total, select_hour-HasHour, select_last_receive-HasAccount, Grows, append-total,
}
use titan_explorer.Token.Run.Spends.{
  Spends, reads_clock, reads_hour, creates_hour, reads_account, books_first, books_again,
  books_hour, pays, records, lists_records, counts_records,
}

abbrev pub KnowsHour : Option Hour → Tables → Type 0
KnowsHour none t = Unit
KnowsHour (some h) t = HasHour h t.hours

abbrev pub KnowsAccount : Option String → Tables → Type 0
KnowsAccount none t = Unit
KnowsAccount (some a) t = HasAccount a t.accounts

-- What programs have booked and not paid, and paid and not recorded, is covered.
pub record Covers (t : Tables) (x y z : ℕ) : Type 0 where
  pub accounts_cover : paid_total t.paid + x ≤ accounts_total t.accounts
  pub hours_cover : paid_total t.paid + y ≤ hours_total t.hours
  pub payments_cover : history_total t.history + z ≤ paid_total t.paid

-- A program with what it knows and owes; x', y' and z' are the others' debts.
pub data Holds {A : Type 0} (t : Tables) (p : Prog A) (x' y' z' : ℕ) : Type 0 where
  holds :
      {h : Option Hour} {a : Option String} {x y z : ℕ}
      → Spends h a x y z p
      → KnowsHour h t
      → KnowsAccount a t
      → Covers t (x + x') (y + y') (z + z')
      → Holds t p x' y' z'

pub Grows-KnowsHour :
    {t t' : Tables} (h : Option Hour) → Grows t t' → KnowsHour h t → KnowsHour h t'
Grows-KnowsHour none g k = tt
Grows-KnowsHour (some h) g k = g.hours_stay h k

pub Grows-KnowsAccount :
    {t t' : Tables} (a : Option String) → Grows t t' → KnowsAccount a t → KnowsAccount a t'
Grows-KnowsAccount none g k = tt
Grows-KnowsAccount (some a) g k = g.accounts_stay a k

-- A statement fails and changes nothing, or it succeeds.
settle :
    {A : Type 0} {t t' : Tables} {x' y' z' : ℕ} (k : Bool → Prog A) (f : Bool)
    → Holds t (k true) x' y' z'
    → Holds t' (k false) x' y' z'
    → Holds (if f then t else t') (k f) x' y' z'
settle k true l r = l
settle k false l r = r

scan :
    {A : Type 0} {t : Tables} {x' y' z' : ℕ} (k : Scan ℕ → Prog A) (f : Bool) (s : Scan ℕ)
    → Holds t (k scan_error) x' y' z'
    → Holds t (k no_rows) x' y' z'
    → ((n : ℕ) → s ≡ scanned n → Holds t (k (scanned n)) x' y' z')
    → Holds t (k (scan_unless f s)) x' y' z'
scan k true s e m r = e
scan k false scan_error e m r = e
scan k false no_rows e m r = m
scan k false (scanned n) e m r = r n refl

read :
    {A B : Type 0} {t : Tables} {x' y' z' : ℕ} (k : Option B → Prog A) (f : Bool) (v : B)
    → Holds t (k none) x' y' z'
    → Holds t (k (some v)) x' y' z'
    → Holds t (k (unless_fails f v)) x' y' z'
read k true v l r = l
read k false v l r = r

transferred :
    {A : Type 0} {t t' : Tables} {x' y' z' : ℕ} (k : Option String → Prog A) (f : Bool) (v : String)
    → Holds t (k none) x' y' z'
    → Holds t' (k (some v)) x' y' z'
    → Holds (if f then t else t') (k (unless_fails f v)) x' y' z'
transferred k true v l r = l
transferred k false v l r = r

-- One call keeps the debts covered.
pub step :
    {A : Type 0} {h : Option Hour} {a : Option String} {x y z : ℕ} {c : Cmd} {k : Resp c → Prog A}
    (w : Oracle) (n : ℕ) (t : Tables) (x' y' z' : ℕ)
    → Spends h a x y z (call c k)
    → KnowsHour h t
    → KnowsAccount a t
    → Covers t (x + x') (y + y') (z + z')
    → Holds (effect w n c t) (k (answer w n c t)) x' y' z'
unfolding answer effect
step w n t x' y' z' (reads_clock k) kh ka b = holds (k (w.clock n)) kh ka b
step w n t x' y' z' (lists_records {k = k'} e k) kh ka b =
    read k' (w.fails n) _ (holds e kh ka b) (holds (k _) kh ka b)
step w n t x' y' z' (counts_records k) kh ka b = holds (k _) kh ka b
step w n t x' y' z' (reads_hour {o} {k = k'} e m k) kh ka b =
    scan k' (w.fails n) (select_hour o t.hours) (holds e kh ka b) (holds m kh ka b)
      (λ v r. holds (k v) (select_hour-HasHour o v t.hours r) ka b)
step w n t x' y' z' (creates_hour {h} {a} {o} {k = k'} e k) kh ka b =
    settle k' (w.fails n) (holds e kh ka b) (
      holds k (insert_hour-listed o t.hours) (Grows-KnowsAccount a (insert_hour-Grows o t) ka)
        (record {
          accounts_cover = b.accounts_cover;
          hours_cover = omega (arith, b.hours_cover, insert_hour-total o t.hours);
          payments_cover = b.payments_cover;
        }))
step w n t x' y' z' (reads_account {b = b'} {k = k'} e m k) kh ka b =
    scan k' (w.fails n) (select_last_receive b' t.accounts) (holds e kh ka b) (holds m kh ka b)
      (λ v r. holds (k v) kh (select_last_receive-HasAccount b' v t.accounts r) b)
step w n t x' y' z' (books_first {h} {a} {b = b'} {n = m} {t = time} {k = k'} e k) kh ka b =
    let g = insert_account-Grows b' m time t in
    settle k' (w.fails n) (holds e kh ka b) (
      holds k (Grows-KnowsHour h g kh) (Grows-KnowsAccount a g ka) (record {
        accounts_cover = omega (arith, b.accounts_cover, insert_account-total b' m time t.accounts);
        hours_cover = b.hours_cover;
        payments_cover = b.payments_cover;
      }))
step w n t x' y' z' (books_again {h} {b = b'} {n = m} {t = time} {k = k'} e k) kh ka b =
    let g = update_account-Grows b' m time t in
    settle k' (w.fails n) (holds e kh ka b) (
      holds k (Grows-KnowsHour h g kh) (g.accounts_stay b' ka) (record {
        accounts_cover =
            omega (arith, b.accounts_cover, update_account-total b' m time t.accounts ka);
        hours_cover = b.hours_cover;
        payments_cover = b.payments_cover;
      }))
step w n t x' y' z' (books_hour {a} {o} {n = m} {k = k'} e k) kh ka b =
    let g = update_hour-Grows m o t in
    settle k' (w.fails n) (holds e kh ka b) (
      holds k (g.hours_stay o kh) (Grows-KnowsAccount a g ka) (record {
        accounts_cover = b.accounts_cover;
        hours_cover = omega (arith, b.hours_cover, update_hour-total m o t.hours kh);
        payments_cover = b.payments_cover;
      }))
step w n t x' y' z' (pays {h} {a} {b = b'} {n = m} {k = k'} e k) kh ka b =
    transferred k' (w.fails n) (w.hash n) (holds e kh ka b) (
      holds (k (w.hash n)) (Grows-KnowsHour h (paid-Grows t _) kh)
        (Grows-KnowsAccount a (paid-Grows t _) ka)
        (record {
          accounts_cover = omega (arith, b.accounts_cover);
          hours_cover = omega (arith, b.hours_cover);
          payments_cover = omega (arith, b.payments_cover);
        }))
step w n t x' y' z' (records {h} {a} {r} {k = k'} e k) kh ka b =
    settle k' (w.fails n) (holds e kh ka b) (
      holds k (Grows-KnowsHour h (history-Grows t _) kh)
        (Grows-KnowsAccount a (history-Grows t _) ka)
        (record {
          accounts_cover = b.accounts_cover;
          hours_cover = b.hours_cover;
          payments_cover = omega (
            arith,
            b.payments_cover,
            append-total (record r { created_at = w.clock n }) t.history,
          );
        }))
