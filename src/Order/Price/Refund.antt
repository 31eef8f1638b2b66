-- ===== src/Order/Price/Refund.antt =====
-- `CalculateOrderRefund`: what an early end gives back.
use titan_explorer.Base.{ℕ, ◌<◌, ◌≡◌, ◌⊎◌, inl, inr, arith}
use titan_explorer.Base.Int.{ℤ, pos, ◌<ℤ◌, int64_half, sub_time, quot, mul64-zero, sub64-pos}
use titan_explorer.Order.Types.{OrderInfoReq, Order}
use titan_explorer.Order.Params.{check_order_params}
use titan_explorer.Order.Price.{
  calculate_duration_coefficient, calculate_total_cost, ceil_hours, calculate_order_refund,
}
use titan_explorer.Order.Price.Bounds.{total_cost_range, IsWithin, number}

coefficient-zero :
    (h : ℤ) → (h <ℤ pos 1) ⊎ (pos 720 <ℤ h) → calculate_duration_coefficient h ≡ pos 0
unfolding calculate_duration_coefficient
coefficient-zero h out = ground arith

-- Outside 1 to 720 hours the cost is 0, whatever the configuration and however its products wrap.
pub total_cost-zero :
    (config : OrderInfoReq)
    → (config.duration <ℤ pos 1) ⊎ (pos 720 <ℤ config.duration)
    → calculate_total_cost config ≡ pos 0
unfolding calculate_total_cost quot
total_cost-zero config out = rw (coefficient-zero config.duration out, mul64-zero)

-- The configuration of an order, as the refund prices it.
abbrev pub priced : Order → ℤ → OrderInfoReq
priced order hours = record {
  cpu_cores = order.cpu_cores;
  ram_size = order.ram_size;
  storage_size = order.storage_size;
  duration = hours;
}

-- Only the hours of the check change.
check-hours :
    (order : Order) (h d : ℤ)
    → check_order_params (priced order d) ≡ 0
    → (check_order_params (priced order h) ≡ 0) ⊎ (h <ℤ pos 1) ⊎ (pos 720 <ℤ h)
unfolding check_order_params
check-hours order h d ok = ground arith

-- The cost of an orderable configuration is a small number, at any number of hours.
cost_range :
    (order : Order) (h d : ℤ)
    → check_order_params (priced order d) ≡ 0
    → IsWithin 0 12_672_000 (calculate_total_cost (priced order h))
cost_range order h d ok = elim (check-hours order h d ok) [
  | inl fits ↦ total_cost_range (priced order h) fits
  | inr out ↦ rw (total_cost-zero (priced order h) out) (omega arith)
]

-- A refund is never negative and never more than the price that was paid, for an order whose
-- configuration passed `checkOrderParams`, at any age.
pub refund_bounds :
    (now : ℤ) (order : Order) (price : ℕ)
    → order.price ≡ pos price
    → price < int64_half
    → check_order_params (priced order order.duration) ≡ 0
    → IsWithin 0 price (calculate_order_refund now order)
unfolding calculate_order_refund
refund_bounds now order price paid small ok =
    let hours = ceil_hours (sub_time now order.created_at) in
    let (cost, e, _, top) = number (cost_range order hours order.duration ok) in
    rw (paid, e) (ground (arith, sub64-pos price cost))

-- After the 720th hour the refund is the whole price: the cost of the time used is then 0.
pub refund_late :
    (now : ℤ) (order : Order) (price : ℕ)
    → order.price ≡ pos price
    → price < int64_half
    → pos 720 <ℤ ceil_hours (sub_time now order.created_at)
    → calculate_order_refund now order ≡ order.price
unfolding calculate_order_refund
refund_late now order price paid small late =
    let hours = ceil_hours (sub_time now order.created_at) in
    rw (total_cost-zero (priced order hours) (inr late), paid) (ground (arith, sub64-pos price 0))
