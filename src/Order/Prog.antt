-- ===== src/Order/Prog.antt =====
-- What the order manager and its handlers do to the outside, one constructor to a call: the
-- statements of core/dao/platform.go, the clock, the chain client and the cluster's API. A program
-- is a tree of such calls, so that the statements of programs that run at once can interleave.
use titan_explorer.Base.{String, Bool, Option, List}
pub use titan_explorer.Base.Program.{
  ret, crash, call, ◌>>=◌, ◌>>◌, ask, skip, log_error, or_skip, or_crash,
}
unfoldable pub use titan_explorer.Base.Program.{for_each}
use titan_explorer.Base.Program.{Program}
use titan_explorer.Base.Int.{ℤ}
use titan_explorer.Order.Types.{OrderStatus, Order, TokenOrder}

pub data Cmd : Type 0 where
  -- time.Now, uuid.NewString, kubMgr.GetCluster
  now : Cmd
  new_uuid : Cmd
  get_cluster : Cmd
  -- core/dao/platform.go
  create_order : Order → Cmd
  update_order_updated : String → Cmd
  update_order_info : Order → OrderStatus → Cmd
  update_order_status : String → OrderStatus → OrderStatus → Cmd
  update_order_hash : String → String → Cmd
  delete_orders_by_created : ℤ → Cmd
  load_expired_orders : List OrderStatus → Cmd
  load_order_ids_by_status : OrderStatus → Cmd
  load_orders_by_status : OrderStatus → Cmd
  load_order_by_id : String → Cmd
  -- core/chain/chain.go
  get_orders : List String → Cmd
  release_order : String → Cmd
  -- core/kubesphere/impl.go: workspace, account, cluster, cpu, ram, storage
  create_space : String → String → String → ℤ → ℤ → ℤ → Cmd
  update_quotas : String → String → ℤ → ℤ → ℤ → Cmd
  delete_space : String → String → Cmd

-- What a call returns: `true` for a call that can only fail means that its error is not nil, and
-- `none` that a read failed or, in `load_order_by_id`, found no row.
abbrev pub Resp : Cmd → Type 0
Resp Cmd.now = ℤ
Resp Cmd.new_uuid = String
Resp Cmd.get_cluster = String
Resp (Cmd.load_expired_orders _) = Option (List Order)
Resp (Cmd.load_order_ids_by_status _) = Option (List String)
Resp (Cmd.load_orders_by_status _) = Option (List Order)
Resp (Cmd.load_order_by_id _) = Option Order
Resp (Cmd.get_orders _) = Option (List TokenOrder)
Resp _ = Bool

abbrev pub Prog : Type 0 → Type 0
Prog A = Program Cmd Resp A
