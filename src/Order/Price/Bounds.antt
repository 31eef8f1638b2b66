-- ===== src/Order/Price/Bounds.antt =====
-- What the price of a configuration lies between, and that no product of it wraps.
use titan_explorer.Base.{ℕ, ◌+◌, ◌*◌, ◌/◌, ◌≤◌, ◌≡◌, refl, arith}
use native.Mathlib.Nat.{le_refl}
use titan_explorer.Base.Int.{ℤ, pos, negsuc, ◌≤ℤ◌, pos_part, mul64, quot, mul64-pos, add64-pos}
use titan_explorer.Order.Types.{OrderInfoReq}
use titan_explorer.Order.Params.{check_order_params, check_order_params-IsOrderable}
use titan_explorer.Order.Price.{
  calculate_cpu_price, calculate_ram_price, calculate_storage_price, calculate_duration_coefficient,
  calculate_total_cost,
}

abbrev pub IsWithin : ℕ → ℕ → ℤ → Type 0
IsWithin lo hi z = (pos lo ≤ℤ z) × (z ≤ℤ pos hi)

-- An integer in such a range is the number of its positive part.
pub number : {lo hi : ℕ} {z : ℤ} → IsWithin lo hi z → (n : ℕ) × (z ≡ pos n) × (lo ≤ n) × (n ≤ hi)
number {z = pos n} h = (n, refl, omega arith, omega arith)
number {z = negsuc n} h = absurd (omega arith)

pub cpu_price_bounds :
    (c : ℕ) → 1 ≤ c → c ≤ 32 → IsWithin (70 * c) (100 * c) (calculate_cpu_price (pos c))
unfolding calculate_cpu_price quot
cpu_price_bounds c l h = ground (
  arith,
  mul64-pos c 100,
  mul64-pos (c * 100) 1,
  mul64-pos (c * 100) 9,
  mul64-pos (c * 100) 8,
  mul64-pos (c * 100) 7,
)

pub ram_price_bounds :
    (r : ℕ) → 1 ≤ r → r ≤ 64 → IsWithin (70 * r) (100 * r) (calculate_ram_price (pos r))
unfolding calculate_ram_price quot
ram_price_bounds r l h = ground (
  arith,
  mul64-pos r 100,
  mul64-pos (r * 100) 1,
  mul64-pos (r * 100) 9,
  mul64-pos (r * 100) 8,
  mul64-pos (r * 100) 7,
)

pub storage_price_bounds :
    (s : ℕ) → 40 ≤ s → s ≤ 4000 → IsWithin s (2 * s) (calculate_storage_price (pos s))
unfolding calculate_storage_price quot
storage_price_bounds s l h = ground (
  arith,
  mul64-pos s 2,
  mul64-pos (s * 2) 1,
  mul64-pos (s * 2) 8,
  mul64-pos (s * 2) 6,
  mul64-pos (s * 2) 5,
)

pub duration_coefficient_bounds :
    (h : ℕ) → 1 ≤ h → h ≤ 720 → IsWithin 7 10 (calculate_duration_coefficient (pos h))
unfolding calculate_duration_coefficient
duration_coefficient_bounds h l u = ground arith

pub mul_le : {a b c d : ℕ} → a ≤ b → c ≤ d → a * c ≤ b * d
mul_le p q = grind arith

-- The last line of `CalculateTotalCost`, on parts in their ranges: no product wraps.
combine_bounds :
    (h d k a b : ℕ)
    → a ≤ h
    → h ≤ b
    → b ≤ 20_000
    → d ≤ 720
    → 7 ≤ k
    → k ≤ 10
    → IsWithin (a * d * 7 / 10) (b * d) (quot (mul64 (mul64 (pos h) (pos d)) (pos k)) 10)
unfolding quot
combine_bounds h d k a b al ah bh dh kl kh =
    let low : a * d * 7 ≤ h * d * k = mul_le (mul_le al (le_refl d)) kl in
    let high : h * d * k ≤ b * d * 10 = mul_le (mul_le ah (le_refl d)) kh in
    let top : b * d ≤ 20_000 * 720 = mul_le bh dh in
    let mid : h * d ≤ b * d = mul_le ah (le_refl d) in
    ground (arith, mul64-pos h d, mul64-pos (h * d) k)

total_cost-pos :
    (c r s d : ℕ)
    → (1 ≤ c) × (c ≤ 32)
    → (1 ≤ r) × (r ≤ 64)
    → (40 ≤ s) × (s ≤ 4000)
    → (1 ≤ d) × (d ≤ 720)
    → IsWithin ((70 * c + 70 * r + s) * d * 7 / 10) ((100 * c + 100 * r + 2 * s) * d) (
        calculate_total_cost
          (record { cpu_cores = pos c; ram_size = pos r; storage_size = pos s; duration = pos d }))
unfolding calculate_total_cost
total_cost-pos c r s d (cl, ch) (rl, rh) (sl, sh) (dl, dh) =
    let (cpu, cpu_eq, cpu_low, cpu_high) = number (cpu_price_bounds c cl ch) in
    let (ram, ram_eq, ram_low, ram_high) = number (ram_price_bounds r rl rh) in
    let (disk, disk_eq, disk_low, disk_high) = number (storage_price_bounds s sl sh) in
    let (k, k_eq, k_low, k_high) = number (duration_coefficient_bounds d dl dh) in
    rw
      (
        cpu_eq,
        ram_eq,
        disk_eq,
        k_eq,
        add64-pos cpu ram (omega arith),
        add64-pos (cpu + ram) disk (omega arith),
      )
      (combine_bounds (cpu + ram + disk) d k (70 * c + 70 * r + s) (100 * c + 100 * r + 2 * s)
        (omega arith) (omega arith) (omega arith) dh k_low k_high)

total_cost_cases :
    (c r s d : ℤ)
    → let config : OrderInfoReq = record {
      cpu_cores = c;
      ram_size = r;
      storage_size = s;
      duration = d;
    } in
      check_order_params config ≡ 0
      → let price = calculate_total_cost config in
        IsWithin
          ((70 * pos_part c + 70 * pos_part r + pos_part s) * pos_part d * 7 / 10)
          ((100 * pos_part c + 100 * pos_part r + 2 * pos_part s) * pos_part d)
          price
unfolding check_order_params
total_cost_cases (pos c) (pos r) (pos s) (pos d) ok =
    total_cost-pos c r s d (ground arith) (ground arith) (ground arith) (ground arith)
total_cost_cases c r s d ok = absurd (ground arith)

-- A configuration that passes `checkOrderParams` costs, for c cores, r GB of memory, s GB of disk
-- and d hours, at most the undiscounted (100c + 100r + 2s)d, and at least the whole part of 7/10
-- of (70c + 70r + s)d, the largest discounts together. It is in particular no wrapped product.
pub total_cost_bounds :
    (config : OrderInfoReq)
    → check_order_params config ≡ 0
    → let c = pos_part config.cpu_cores in
      let r = pos_part config.ram_size in
      let s = pos_part config.storage_size in
      let d = pos_part config.duration in
      IsWithin
        ((70 * c + 70 * r + s) * d * 7 / 10)
        ((100 * c + 100 * r + 2 * s) * d)
        (calculate_total_cost config)
total_cost_bounds config ok =
    total_cost_cases config.cpu_cores config.ram_size config.storage_size config.duration ok

-- 17,600 an hour for 720 hours: far from 2 ^ 63.
pub total_cost_range :
    (config : OrderInfoReq)
    → check_order_params config ≡ 0
    → IsWithin 0 12_672_000 (calculate_total_cost config)
total_cost_range config ok =
    let (low, high) = total_cost_bounds config ok in
    let fits = check_order_params-IsOrderable config ok in
    let top : (100 * pos_part config.cpu_cores
            + 100 * pos_part config.ram_size
            + 2 * pos_part config.storage_size)
          * pos_part config.duration
        ≤ 17_600 * 720 =
      mul_le {b = 17_600} {d = 720} (omega arith) (omega arith) in
    (omega arith, omega arith)
