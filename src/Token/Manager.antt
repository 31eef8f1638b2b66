-- ===== src/Token/Manager.antt =====
-- core/token/manager.go and the faucet's handlers in api/platform.go.
use titan_explorer.Base.{
  ℕ, ◌+◌, String, Bool, true, false, Option, none, some, List, ltb, leb, if◌then◌else◌,
}
use titan_explorer.Base.Int.{ℤ, pos, sub_ℕ, mul64, sub64, ltb_ℤ, to_uint64}
use titan_explorer.Token.Calendar.{Hour, current_hour, next_hour, is_zero, is_today}
use titan_explorer.Base.Program.{ret, ask, ◌>>=◌}
use titan_explorer.Token.Prog.{ReceiveHistory, Cmd, scan_error, no_rows, scanned, Prog}

abbrev pub hourly_quota : ℕ
hourly_quota = 10_000

abbrev pub max_user_quota : ℕ
max_user_quota = 400

-- core/errors/code.go
abbrev pub success_code : ℕ
success_code = 0

abbrev pub internal_server : ℕ
internal_server = 1004

abbrev pub quota_issued : ℕ
quota_issued = 2066

abbrev pub received_code : ℕ
received_code = 2067

-- `GetOrCreateHourlyQuota`; `none` is an error.
unfoldable pub get_or_create_hourly_quota : Hour → Prog (Option ℕ)
get_or_create_hourly_quota hour = do
  found ← ask (Cmd.select_hour hour)
  elim found [
    | no_rows ↦ ask (Cmd.insert_hour hour) >>= λ err. ret (if err then none else some 0)
    | scan_error ↦ ret none
    | scanned amount ↦ ret (some amount)
  ]

-- `SaveAccountReceive` and `UpdateAccountReceive`; `true` is an error.
unfoldable pub save_account_receive : String → ℕ → Prog Bool
save_account_receive account amount = do
  now ← ask Cmd.now
  ask (Cmd.insert_account account amount now)

unfoldable pub update_account_receive : String → ℕ → Prog Bool
update_account_receive account amount = do
  now ← ask Cmd.now
  ask (Cmd.update_account account amount now)

pub record AmountDistributedInfo : Type 0 where
  pub remaining_amount : ℤ
  pub used_amount : ℕ
  pub next_time : ℕ
  pub received : Bool

module _ (zone : ℤ) where
  -- The steps of `ReceiveTokens` after its checks: mark the account, count the hour, transfer,
  -- record.
  unfoldable pub grant : String → Hour → Bool → Prog ℕ
  unfolding save_account_receive update_account_receive
  grant account hour is_first = do
    err ←
        (if is_first
          then save_account_receive account max_user_quota
          else update_account_receive account max_user_quota)
    if err then ret internal_server else do
      err ← ask (Cmd.update_hour max_user_quota hour)
      if err then ret internal_server else do
        sent ← ask (Cmd.transfer account max_user_quota)
        elim sent [
          | none ↦ ret internal_server
          | some hash ↦
              ask (
                Cmd.insert_history (record {
                  account = account;
                  amount = max_user_quota;
                  hash = hash;
                  created_at = 0;
                }))
              >>= λ err. ret (if err then internal_server else success_code)
        ]

  -- The second check of the quota.
  unfoldable pub grant_within : String → Hour → ℕ → Bool → Prog ℕ
  unfolding grant
  grant_within account hour amount is_first =
      if ltb hourly_quota (amount + max_user_quota)
      then ret quota_issued
      else grant account hour is_first

  -- `ReceiveTokens` from the hour's amount on; the sum cannot wrap, since `amount` is below the
  -- quota.
  unfoldable pub receive_from : String → Hour → Option ℕ → Prog ℕ
  unfolding grant_within is_today is_zero
  receive_from account hour none = ret internal_server
  receive_from account hour (some amount) = if leb hourly_quota amount then ret quota_issued else do
    last ← ask (Cmd.select_last_receive account)
    elim last [
      | scan_error ↦ ret internal_server
      | no_rows ↦ grant_within account hour amount true
      | scanned time ↦ if is_zero time then grant_within account hour amount false else do
        now ← ask Cmd.now
        if is_today zone now time then ret received_code else grant_within account hour amount false
    ]

  -- `ReceiveTokens`
  unfoldable pub receive_tokens : String → Prog ℕ
  unfolding current_hour get_or_create_hourly_quota receive_from
  receive_tokens account = do
    now ← ask Cmd.now
    let hour = current_hour zone now
    quota ← get_or_create_hourly_quota hour
    receive_from account hour quota

  -- `isReceive`
  unfoldable pub is_receive : String → Prog Bool
  unfolding is_zero is_today
  is_receive account = do
    last ← ask (Cmd.select_last_receive account)
    elim last [
      | scan_error ↦ ret true
      | no_rows ↦ ret false
      | scanned time ↦
          if is_zero time then ret false else do now ← ask Cmd.now; ret (is_today zone now time)
    ]

  unfoldable pub get_amount_distributed_info : String → Prog (Option AmountDistributedInfo)
  unfolding current_hour get_or_create_hourly_quota next_hour is_receive
  get_amount_distributed_info account = do
    now ← ask Cmd.now
    quota ← get_or_create_hourly_quota (current_hour zone now)
    elim quota [
      | none ↦ ret none
      | some amount ↦ do
        later ← ask Cmd.now
        is_received ← is_receive account
        ret (
            some (record {
              remaining_amount = sub_ℕ hourly_quota amount;
              used_amount = amount;
              next_time = next_hour zone later;
              received = is_received;
            }))
    ]

-- The handlers' JSON answers: `respErrorCode`, "success", the faucet's state, a page of records.
pub data Response : Type 0 where
  error_code : ℕ → Response
  success : Response
  info : AmountDistributedInfo → Response
  records : List ReceiveHistory → ℕ → Response

unfoldable pub receive_token_handler : ℤ → String → Prog Response
unfolding receive_tokens
receive_token_handler zone id = do
  code ← receive_tokens zone id
  ret (if ltb 0 code then error_code code else success)

unfoldable pub get_distributed_amount_handler : ℤ → String → Prog Response
unfolding get_amount_distributed_info
get_distributed_amount_handler zone id = do
  found ← get_amount_distributed_info zone id
  ret (elim found [ none ↦ error_code internal_server | some i ↦ info i ])

-- `uint64((page - 1) * size)`, with the first page for a page below 1.
unfoldable pub history_offset : ℤ → ℤ → ℕ
unfolding mul64 sub64
history_offset page size =
    let page' = if ltb_ℤ page (pos 1) then pos 1 else page in
    to_uint64 (mul64 (sub64 page' (pos 1)) size)

-- `LoadReceiveHistory`: the rows and their number.
unfoldable pub load_receive_history : String → ℤ → ℤ → Prog (Option (List ReceiveHistory × ℕ))
unfolding history_offset
load_receive_history account page size = do
  rows ← ask (Cmd.load_history account (history_offset page size) (to_uint64 size))
  elim rows [
    | none ↦ ret none
    | some list ↦ ask (Cmd.count_history account) >>= λ total.
        ret (elim total [ none ↦ none | some n ↦ some (list, n) ])
  ]

-- `page` and `size` are 0 where `Atoi` fails.
unfoldable pub get_receive_history_handler : String → ℤ → ℤ → Prog Response
unfolding load_receive_history
get_receive_history_handler account page size = do
  found ← load_receive_history account page size
  ret (elim found [ none ↦ error_code internal_server | some p ↦ records p.0 p.1 ])
