-- ===== src/Token/Run/Spends.antt =====
-- Programs that move tokens in the faucet's order: booked for the account, booked for the hour,
-- paid, recorded.
use titan_explorer.Base.Program.{ret, call, ◌>>=◌}
use titan_explorer.Base.{ℕ, ◌+◌, String, Bool, true, false, Option, none, some, List, if◌then◌else◌}
use titan_explorer.Base.Int.{ℤ}
use titan_explorer.Token.Calendar.{Hour}
use titan_explorer.Token.Prog.{ReceiveHistory, Cmd, Scan, scan_error, no_rows, scanned, Prog}
use titan_explorer.Token.Manager.{
  get_or_create_hourly_quota, save_account_receive, update_account_receive, grant, grant_within,
  receive_from, receive_tokens, is_receive, get_amount_distributed_info, load_receive_history,
  receive_token_handler, get_distributed_amount_handler, get_receive_history_handler,
}

-- `Spends h a x y z p`: the program has read or created a row of the hour `h` and read one of the
-- account `a`, where these are not `none`; of what it has booked for the account, x is not paid, of
-- what it has booked for the hour, y is not paid, and of what it has paid, z is not recorded.
pub data Spends {A : Type 0} : Option Hour → Option String → ℕ → ℕ → ℕ → Prog A → Type 0 where
  ends : {h : Option Hour} {a : Option String} {x y z : ℕ} {r : A} → Spends h a x y z (ret r)
  reads_clock :
      {h : Option Hour} {a : Option String} {x y z : ℕ} {k : ℕ → Prog A}
      → ((t : ℕ) → Spends h a x y z (k t))
      → Spends h a x y z (call Cmd.now k)
  reads_hour :
      {h : Option Hour} {a : Option String} {x y z : ℕ} {o : Hour} {k : Scan ℕ → Prog A}
      → Spends h a x y z (k scan_error)
      → Spends h a x y z (k no_rows)
      → ((n : ℕ) → Spends (some o) a x y z (k (scanned n)))
      → Spends h a x y z (call (Cmd.select_hour o) k)
  creates_hour :
      {h : Option Hour} {a : Option String} {x y z : ℕ} {o : Hour} {k : Bool → Prog A}
      → Spends h a x y z (k true)
      → Spends (some o) a x y z (k false)
      → Spends h a x y z (call (Cmd.insert_hour o) k)
  reads_account :
      {h : Option Hour} {a : Option String} {x y z : ℕ} {b : String} {k : Scan ℕ → Prog A}
      → Spends h a x y z (k scan_error)
      → Spends h a x y z (k no_rows)
      → ((n : ℕ) → Spends h (some b) x y z (k (scanned n)))
      → Spends h a x y z (call (Cmd.select_last_receive b) k)
  books_first :
      {h : Option Hour} {a : Option String} {x y z : ℕ} {b : String} {n t : ℕ} {k : Bool → Prog A}
      → Spends h a x y z (k true)
      → Spends h a (x + n) y z (k false)
      → Spends h a x y z (call (Cmd.insert_account b n t) k)
  books_again :
      {h : Option Hour} {x y z : ℕ} {b : String} {n t : ℕ} {k : Bool → Prog A}
      → Spends h (some b) x y z (k true)
      → Spends h (some b) (x + n) y z (k false)
      → Spends h (some b) x y z (call (Cmd.update_account b n t) k)
  books_hour :
      {a : Option String} {x y z : ℕ} {o : Hour} {n : ℕ} {k : Bool → Prog A}
      → Spends (some o) a x y z (k true)
      → Spends (some o) a x (y + n) z (k false)
      → Spends (some o) a x y z (call (Cmd.update_hour n o) k)
  pays :
      {h : Option Hour} {a : Option String} {x y z : ℕ} {b : String} {n : ℕ}
      {k : Option String → Prog A}
      → Spends h a (x + n) (y + n) z (k none)
      → ((hash : String) → Spends h a x y (z + n) (k (some hash)))
      → Spends h a (x + n) (y + n) z (call (Cmd.transfer b n) k)
  records :
      {h : Option Hour} {a : Option String} {x y z : ℕ} {r : ReceiveHistory} {k : Bool → Prog A}
      → Spends h a x y (z + r.amount) (k true)
      → Spends h a x y z (k false)
      → Spends h a x y (z + r.amount) (call (Cmd.insert_history r) k)
  lists_records :
      {h : Option Hour} {a : Option String} {x y z : ℕ} {b : String} {o l : ℕ}
      {k : Option (List ReceiveHistory) → Prog A}
      → Spends h a x y z (k none)
      → ((l : List ReceiveHistory) → Spends h a x y z (k (some l)))
      → Spends h a x y z (call (Cmd.load_history b o l) k)
  counts_records :
      {h : Option Hour} {a : Option String} {x y z : ℕ} {b : String} {k : Option ℕ → Prog A}
      → ((r : Option ℕ) → Spends h a x y z (k r))
      → Spends h a x y z (call (Cmd.count_history b) k)

-- What comes after a program that has paid and recorded all that it booked.
answered :
    {A B : Type 0} {h : Option Hour} {a : Option String} {x y z : ℕ} {p : Prog A} (f : A → B)
    → Spends h a x y z p
    → Spends h a x y z (p >>= λ r. ret (f r))
answered f ends = ends
answered f (reads_clock k) = reads_clock (λ t. answered f (k t))
answered f (reads_hour e m k) = reads_hour (answered f e) (answered f m) (λ n. answered f (k n))
answered f (creates_hour e k) = creates_hour (answered f e) (answered f k)
answered f (reads_account e m k) =
    reads_account (answered f e) (answered f m) (λ n. answered f (k n))
answered f (books_first e k) = books_first (answered f e) (answered f k)
answered f (books_again e k) = books_again (answered f e) (answered f k)
answered f (books_hour e k) = books_hour (answered f e) (answered f k)
answered f (pays e k) = pays (answered f e) (λ hash. answered f (k hash))
answered f (records e k) = records (answered f e) (answered f k)
answered f (lists_records e k) = lists_records (answered f e) (λ l. answered f (k l))
answered f (counts_records k) = counts_records (λ r. answered f (k r))

either :
    {A : Type 0} {h : Option Hour} {a : Option String} {x y z : ℕ} {p q : Prog A} (b : Bool)
    → Spends h a x y z p
    → Spends h a x y z q
    → Spends h a x y z (if b then p else q)
either true l r = l
either false l r = r

grant-Spends :
    (zone : ℤ) (account : String) (hour : Hour) (a : Option String) (first : Bool)
    → Spends (some hour) (if first then a else some account) 0 0 0 (grant zone account hour first)
unfolding grant save_account_receive update_account_receive
grant-Spends zone account hour a true = reads_clock (λ t.
    books_first ends
      (books_hour ends (pays {x = 0} {y = 0} ends (λ hash. records {z = 0} ends ends))))
grant-Spends zone account hour a false = reads_clock (λ t.
    books_again ends
      (books_hour ends (pays {x = 0} {y = 0} ends (λ hash. records {z = 0} ends ends))))

grant_within-Spends :
    (zone : ℤ) (account : String) (hour : Hour) (n : ℕ) (a : Option String) (first : Bool)
    → Spends
        (some hour)
        (if first then a else some account)
        0
        0
        0
        (grant_within zone account hour n first)
unfolding grant_within
grant_within-Spends zone account hour n a first =
    either _ ends (grant-Spends zone account hour a first)

receive_from-Spends :
    (zone : ℤ) (account : String) (hour : Hour) (n : ℕ)
    → Spends (some hour) none 0 0 0 (receive_from zone account hour (some n))
unfolding receive_from
receive_from-Spends zone account hour n =
    let again = grant_within-Spends zone account hour n none false in
    either _ ends (
      reads_account ends (grant_within-Spends zone account hour n none true)
        (λ t. either _ again (reads_clock (λ now. either _ ends again))))

pub receive_token_handler-Spends :
    (zone : ℤ) (account : String) → Spends none none 0 0 0 (receive_token_handler zone account)
unfolding receive_token_handler receive_tokens get_or_create_hourly_quota
receive_token_handler-Spends zone account = reads_clock (λ now.
    reads_hour ends (creates_hour ends (answered _ (receive_from-Spends zone account _ 0)))
      (λ n. answered _ (receive_from-Spends zone account _ n)))

is_receive-Spends :
    {h : Option Hour} (zone : ℤ) (account : String) → Spends h none 0 0 0 (is_receive zone account)
unfolding is_receive
is_receive-Spends zone account =
    reads_account ends ends (λ t. either _ ends (reads_clock (λ now. ends)))

pub get_distributed_amount_handler-Spends :
    (zone : ℤ) (account : String)
    → Spends none none 0 0 0 (get_distributed_amount_handler zone account)
unfolding get_distributed_amount_handler get_amount_distributed_info get_or_create_hourly_quota
get_distributed_amount_handler-Spends zone account = reads_clock (λ now.
    reads_hour ends
      (creates_hour ends
        (reads_clock (λ later. answered _ (answered _ (is_receive-Spends zone account)))))
      (λ n. reads_clock (λ later. answered _ (answered _ (is_receive-Spends zone account)))))

pub get_receive_history_handler-Spends :
    (account : String) (page size : ℤ)
    → Spends none none 0 0 0 (get_receive_history_handler account page size)
unfolding get_receive_history_handler load_receive_history
get_receive_history_handler-Spends account page size =
    lists_records ends (λ l. counts_records (λ n. ends))
