-- ===== src/Order/Price.antt =====
-- core/order/price.go and the refund of core/order/impl.go.
pub mod Bounds
pub mod Refund
use titan_explorer.Base.{ℕ, ◌+◌, ◌/◌, ◌%◌, Bool, if◌then◌else◌, ◌&&◌, ◌==◌}
use titan_explorer.Base.Int.{ℤ, pos, negsuc, ltb_ℤ, between, mul64, add64, sub64, sub_time, quot}
use titan_explorer.Order.Types.{OrderInfoReq, Order}

abbrev pub base_cpu_price : ℤ
base_cpu_price = pos 100

abbrev pub base_ram_price : ℤ
base_ram_price = pos 100

abbrev pub base_storage_price : ℤ
base_storage_price = pos 2

unfoldable pub calculate_cpu_price : ℤ → ℤ
calculate_cpu_price cores =
    if between 1 4 cores
    then mul64 (mul64 cores base_cpu_price) (pos 1)
    else if between 5 8 cores
    then quot (mul64 (mul64 cores base_cpu_price) (pos 9)) 10
    else if between 9 16 cores
    then quot (mul64 (mul64 cores base_cpu_price) (pos 8)) 10
    else if between 17 32 cores
    then quot (mul64 (mul64 cores base_cpu_price) (pos 7)) 10
    else pos 0

unfoldable pub calculate_ram_price : ℤ → ℤ
calculate_ram_price size =
    if between 1 4 size
    then mul64 (mul64 size base_ram_price) (pos 1)
    else if between 5 16 size
    then quot (mul64 (mul64 size base_ram_price) (pos 9)) 10
    else if between 17 32 size
    then quot (mul64 (mul64 size base_ram_price) (pos 8)) 10
    else if between 33 64 size
    then quot (mul64 (mul64 size base_ram_price) (pos 7)) 10
    else pos 0

unfoldable pub calculate_storage_price : ℤ → ℤ
calculate_storage_price size =
    if between 40 100 size
    then mul64 (mul64 size base_storage_price) (pos 1)
    else if between 101 500 size
    then quot (mul64 (mul64 size base_storage_price) (pos 8)) 10
    else if between 501 2000 size
    then quot (mul64 (mul64 size base_storage_price) (pos 6)) 10
    else if between 2001 4000 size
    then quot (mul64 (mul64 size base_storage_price) (pos 5)) 10
    else pos 0

unfoldable pub calculate_duration_coefficient : ℤ → ℤ
calculate_duration_coefficient hours =
    if between 1 24 hours
    then pos 10
    else if between 25 72 hours
    then pos 9
    else if between 73 168 hours
    then pos 8
    else if between 169 720 hours
    then pos 7
    else pos 0

unfoldable pub calculate_total_cost : OrderInfoReq → ℤ
unfolding calculate_cpu_price calculate_ram_price calculate_storage_price
    calculate_duration_coefficient
calculate_total_cost config =
    let cpu_cost = calculate_cpu_price config.cpu_cores in
    let ram_cost = calculate_ram_price config.ram_size in
    let storage_cost = calculate_storage_price config.storage_size in
    let hourly_base_cost = add64 (add64 cpu_cost ram_cost) storage_cost in
    let duration_coefficient = calculate_duration_coefficient config.duration in
    quot (mul64 (mul64 hourly_base_cost config.duration) duration_coefficient) 10

-- One hour as a `time.Duration`, in nanoseconds.
abbrev pub hour_ns : ℕ
hour_ns = 3_600_000_000_000

-- `int(math.Ceil(d.Hours()))`. `Hours` is a float64; up to 4096 hours its rounding does not reach
-- the next whole hour, and orders last at most 720.
unfoldable pub ceil_hours : ℤ → ℤ
ceil_hours (pos n) = pos (n / hour_ns + (if n % hour_ns == 0 then 0 else 1))
ceil_hours (negsuc n) = quot (negsuc n) hour_ns

-- `CalculateOrderRefund` at the time `now`.
unfoldable pub calculate_order_refund : ℤ → Order → ℤ
unfolding calculate_total_cost ceil_hours
calculate_order_refund now order =
    let hour = ceil_hours (sub_time now order.created_at) in
    let pr = calculate_total_cost (record {
      cpu_cores = order.cpu_cores;
      ram_size = order.ram_size;
      storage_size = order.storage_size;
      duration = hour;
    }) in
    let refund = sub64 order.price pr in if ltb_ℤ refund (pos 0) then pos 0 else refund
