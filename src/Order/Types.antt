-- ===== src/Order/Types.antt =====
-- The order's data: core/types.go and the chain's view of an order, core/chain/chain.go.
-- A Go `int` is ℤ, a time is ℤ (nanoseconds since the epoch).
use titan_explorer.Base.{ℕ, String, Bool, true, false}
use titan_explorer.Base.Int.{ℤ}

-- `core.OrderStatus`
pub data OrderStatus : Type 0 where
  created paid done expired failed timeout upgrade renewal abandoned termination : OrderStatus

abbrev pub status_eq : OrderStatus → OrderStatus → Bool
status_eq created created = true
status_eq paid paid = true
status_eq done done = true
status_eq expired expired = true
status_eq failed failed = true
status_eq timeout timeout = true
status_eq upgrade upgrade = true
status_eq renewal renewal = true
status_eq abandoned abandoned = true
status_eq termination termination = true
status_eq _ _ = false

-- `core.OrderInfoReq`
pub record OrderInfoReq : Type 0 where
  pub cpu_cores : ℤ
  pub ram_size : ℤ
  pub storage_size : ℤ
  pub duration : ℤ

-- `core.Order`
pub record Order : Type 0 where
  pub id : String
  pub account : String
  pub cpu_cores : ℤ
  pub ram_size : ℤ
  pub storage_size : ℤ
  pub duration : ℤ
  pub price : ℤ
  pub cluster : String
  pub status : OrderStatus
  pub workspace_id : String
  pub hash : String
  pub created_at : ℤ
  pub expired_at : ℤ
  pub updated_at : ℤ

-- `chain.OrderStatus` is a string: two of its values are named.
pub data ChainStatus : Type 0 where
  active expired : ChainStatus
  other : String → ChainStatus

-- `chain.TokenOrder`, with `Resource` spread out: uint64 and uint32 fields.
pub record TokenOrder : Type 0 where
  pub id : String
  pub duration : ℕ
  pub initiator : String
  pub locked_funds : ℕ
  pub cpu : ℕ
  pub memory : ℕ
  pub disk : ℕ
  pub start_height : ℕ
  pub status : ChainStatus
