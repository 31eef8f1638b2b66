-- ===== src/Token/Calendar.antt =====
-- The clock readings of core/token/manager.go. A time is the number of nanoseconds since Go's zero
-- time, the start of the year 1 in UTC. `zone` is what `time.Local` adds to UTC, in nanoseconds:
-- a zone without daylight saving.
use titan_explorer.Base.{ℕ, ◌+◌, ◌-◌, ◌*◌, ◌/◌, ◌%◌, Bool, ◌&&◌, ◌==◌, ltb, leb, if◌then◌else◌}
use titan_explorer.Base.Int.{ℤ, pos, ◌+ℤ◌, ◌-ℤ◌, pos_part}

abbrev pub hour_ns : ℕ
hour_ns = 3_600_000_000_000

abbrev pub day_ns : ℕ
day_ns = 86_400_000_000_000

unfoldable pub local : ℤ → ℕ → ℕ
unfolding ◌+ℤ◌
local zone t = pos_part (pos t +ℤ zone)

-- What `getCurrentHourString` prints, as its four numbers: no two hours print the same.
pub record Hour : Type 0 where
  pub year : ℕ
  pub month : ℕ
  pub day : ℕ
  pub hour : ℕ

unfoldable pub hour_eq : Hour → Hour → Bool
hour_eq a b = a.year == b.year && (a.month == b.month && (a.day == b.day && a.hour == b.hour))

-- Year, month and day of the n-th day since 1 January of the year 1, by the Gregorian calendar:
-- counted from 1 March of the year 0, 306 days before, so that a leap day ends its year.
unfoldable civil : ℕ → ℕ × ℕ × ℕ
civil n =
    let z = n + 306 in
    let era = z / 146_097 in
    let doe = z % 146_097 in
    let yoe = (doe - doe / 1460 + doe / 36_524 - doe / 146_096) / 365 in
    let doy = doe - (365 * yoe + yoe / 4 - yoe / 100) in
    let mp = (5 * doy + 2) / 153 in
    let day = doy - (153 * mp + 2) / 5 + 1 in
    let month = if ltb mp 10 then mp + 3 else mp - 9 in
    let year = yoe + era * 400 + (if leb month 2 then 1 else 0) in (year, month, day)

unfoldable pub current_hour : ℤ → ℕ → Hour
unfolding local civil
current_hour zone now =
    let t = local zone now in
    let (year, month, day) = civil (t / day_ns) in
    record { year = year; month = month; day = day; hour = t % day_ns / hour_ns }

-- `getNextHour`
unfoldable pub next_hour : ℤ → ℕ → ℕ
unfolding local ◌-ℤ◌
next_hour zone now = pos_part (pos (local zone (now + hour_ns) / hour_ns * hour_ns) -ℤ zone)

unfoldable pub is_zero : ℕ → Bool
is_zero t = t == 0

-- `isToday`: strictly after the last midnight and before the next.
unfoldable pub is_today : ℤ → ℕ → ℕ → Bool
unfolding local
is_today zone now t =
    let today = local zone now / day_ns * day_ns in
    ltb today (local zone t) && ltb (local zone t) (today + day_ns)
