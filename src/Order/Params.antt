-- ===== src/Order/Params.antt =====
-- `checkOrderParams` of api/platform.go: the configurations that can be ordered.
use titan_explorer.Base.{ℕ, ◌≤◌, ◌≡◌, ◌||◌, arith, if◌then◌else◌}
use titan_explorer.Base.Int.{pos, pos_part, ltb_ℤ}
use titan_explorer.Order.Types.{OrderInfoReq}

-- The codes of core/errors/errors.go that the order handlers answer; 0 is success.
abbrev pub not_found : ℕ
not_found = 1000

abbrev pub invalid_params : ℕ
invalid_params = 1001

abbrev pub internal_server : ℕ
internal_server = 1004

abbrev pub quota_issued : ℕ
quota_issued = 2066

abbrev pub received : ℕ
received = 2067

abbrev pub order_status : ℕ
order_status = 2068

unfoldable pub check_order_params : OrderInfoReq → ℕ
check_order_params order =
    if ltb_ℤ (pos 32) order.cpu_cores || ltb_ℤ order.cpu_cores (pos 1)
    then invalid_params
    else if ltb_ℤ (pos 64) order.ram_size || ltb_ℤ order.ram_size (pos 1)
    then invalid_params
    else if ltb_ℤ (pos 4000) order.storage_size || ltb_ℤ order.storage_size (pos 40)
    then invalid_params
    else if ltb_ℤ (pos 720) order.duration || ltb_ℤ order.duration (pos 1)
    then invalid_params
    else 0

-- What a configuration that passes is: four numbers in their ranges.
pub record IsOrderable (order : OrderInfoReq) : Type 0 where
  pub cpu :
      (order.cpu_cores ≡ pos (pos_part order.cpu_cores))
      × (1 ≤ pos_part order.cpu_cores)
      × (pos_part order.cpu_cores ≤ 32)
  pub ram :
      (order.ram_size ≡ pos (pos_part order.ram_size))
      × (1 ≤ pos_part order.ram_size)
      × (pos_part order.ram_size ≤ 64)
  pub storage :
      (order.storage_size ≡ pos (pos_part order.storage_size))
      × (40 ≤ pos_part order.storage_size)
      × (pos_part order.storage_size ≤ 4000)
  pub hours :
      (order.duration ≡ pos (pos_part order.duration))
      × (1 ≤ pos_part order.duration)
      × (pos_part order.duration ≤ 720)

pub check_order_params-IsOrderable :
    (order : OrderInfoReq) → check_order_params order ≡ 0 → IsOrderable order
unfolding check_order_params
check_order_params-IsOrderable order h = ground arith
