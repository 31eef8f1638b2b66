-- ===== src/Queue/Counters.antt =====
-- The counters of core/oprds/redis.go.
use titan_explorer.Base.{
  ℕ, zero, suc, ◌+◌, ◌≡◌, ap, ◌∙◌, String, Bool, true, Option, none, some, leb, arith, or_return,
  or_return-holds,
}
use titan_explorer.Base.Int.{ℤ, pos, leb_ℤ}
use titan_explorer.Queue.Redis.{Redis, Replies, IntReply, nil, int, int_error}
use titan_explorer.Queue.Client.{
  un_sync_key, download_key, incr_un_sync_node_id, check_un_sync_node_id, incr_asset_hour_download,
  get_asset_hour_download,
}

-- A call n times, while it does not fail.
unfoldable pub times : {S : Type 0} → ℕ → (S → Option S) → S → Option S
times zero f s = some s
times (suc n) f s = or_return (f s) none λ s'. times n f s'

module _ {S : Type 0} (rds : Redis S) where
  times-incr :
      (key : String) (f : S → Option S)
      → ((s s' : S) → f s ≡ some s' → rds.counter s' key ≡ suc (rds.counter s key))
      → (n : ℕ) (s s' : S) → times n f s ≡ some s'
      → rds.counter s' key ≡ rds.counter s key + n
  unfolding times
  times-incr key f counts zero s s' e = ground (arith, e)
  times-incr key f counts (suc n) s s' e =
      or_return-holds (λ o. o ≡ some s' → rds.counter s' key ≡ rds.counter s key + suc n) (f s) none
        _ (λ r. ground (arith, r))
        (λ s1 c r. omega (arith, counts s s1 c, times-incr key f counts n s1 s' r)) e

  incremented :
      (hash user_id : String) (n : ℕ) (s s' : S)
      → times n (incr_asset_hour_download rds hash user_id) s ≡ some s'
      → let key = download_key rds hash user_id in rds.counter s' key ≡ rds.counter s key + n
  unfolding incr_asset_hour_download
  incremented hash user_id =
      let key = download_key rds hash user_id in times-incr key _ (rds.incr-counter key)

  failures :
      (node_id : String) (n : ℕ) (s s' : S)
      → times n (incr_un_sync_node_id rds node_id) s ≡ some s'
      → let key = un_sync_key rds node_id in rds.counter s' key ≡ rds.counter s key + n
  unfolding incr_un_sync_node_id
  failures node_id = let key = un_sync_key rds node_id in times-incr key _ (rds.incr-counter key)

  -- A read gives the count, and leaves none.
  get_counts :
      (hash user_id : String) (s : S) (v : ℤ)
      → let (r, s') = get_asset_hour_download rds hash user_id s in
        r ≡ some v
        → (v ≡ pos (rds.counter s (download_key rds hash user_id)))
          × (rds.counter s' (download_key rds hash user_id) ≡ 0)
  unfolding get_asset_hour_download
  get_counts hash user_id s v =
      let key = download_key rds hash user_id in
      read (rds.get_int key s) (rds.get_int-Replies key s)
    where
      Counts : IntReply → Type 0
      Counts reply =
          let key = download_key rds hash user_id in
          let (r, s') = elim reply as (λ _. Option ℤ × S) [
            | nil ↦ (some (pos 0), s)
            | int z ↦ (some z, rds.del key s)
            | int_error ↦ (none, rds.del key s)
          ] in
          r ≡ some v → (v ≡ pos (rds.counter s key)) × (rds.counter s' key ≡ 0)

      read :
          (reply : IntReply)
          → Replies reply (rds.counter s (download_key rds hash user_id))
          → Counts reply
      read nil h e = (ground (arith, h, e), h)
      read (int z) h e = (ground (arith, h, e), rds.del-counter (download_key rds hash user_id) s)
      read int_error h e = ground (arith, e)

-- A counter that is missing counts the downloads until it is read, which starts it anew: after n
-- increments the first read gives n and the second 0, where no call fails.
pub downloads_are_counted :
    {S : Type 0} (rds : Redis S) (hash user_id : String) (n : ℕ) (s s' : S) (v v' : ℤ)
    → rds.counter s (download_key rds hash user_id) ≡ 0
    → times n (incr_asset_hour_download rds hash user_id) s ≡ some s'
    → (get_asset_hour_download rds hash user_id s').0 ≡ some v
    → (get_asset_hour_download rds hash user_id (get_asset_hour_download rds hash user_id s').1).0
      ≡ some v'
    → (v ≡ pos n) × (v' ≡ pos 0)
downloads_are_counted rds hash user_id n s s' v v' missing counted first second =
    let key = download_key rds hash user_id in
    let (is_count, emptied) = get_counts rds hash user_id s' v first in
    let (is_zero, _) =
      get_counts rds hash user_id (get_asset_hour_download rds hash user_id s').1 v' second in
    let total = incremented rds hash user_id n s s' counted in
    (is_count ∙ ap pos (omega (arith, total, missing)), is_zero ∙ ap pos emptied)

-- A node is skipped once it has failed to sync more than five times.
skipped_after_five :
    {S : Type 0} (rds : Redis S) (node_id : String) (n : ℕ) (s s' : S) (goes_on : Bool)
    → rds.counter s (un_sync_key rds node_id) ≡ 0
    → times n (incr_un_sync_node_id rds node_id) s ≡ some s'
    → check_un_sync_node_id rds node_id s' ≡ some goes_on
    → goes_on ≡ leb n 5
unfolding check_un_sync_node_id
skipped_after_five rds node_id n s s' goes_on missing counted =
    let key = un_sync_key rds node_id in
    let total = failures rds node_id n s s' counted in
    checked (rds.get_int key s') (rds.counter s' key) n (rds.get_int-Replies key s')
      (omega (arith, total, missing)) goes_on
  where
    checked :
        (reply : IntReply) (k n : ℕ)
        → Replies reply k
        → k ≡ n
        → (b : Bool)
        → elim reply [ nil ↦ some true | int num ↦ some (leb_ℤ num (pos 5)) | int_error ↦ none ]
          ≡ some b
        → b ≡ leb n 5
    checked nil k n h e b c = ground (arith, h, e, c)
    checked (int z) k n h e b c = ground (arith, h, e, c)
    checked int_error k n h e b c = ground (arith, c)
