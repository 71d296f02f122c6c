-- ===== src/Time/Arith.antt =====
-- The arithmetic of code/Time.cpp: sums and differences, the moves by days, hours, minutes and seconds,
-- and rounding.
pub mod Moves
use mlnotes.Base.{ℕ, Bool, not, Option, none, some, ◌>>=◌}
use mlnotes.Base.Int.{ℤ, pos, ◌+ℤ◌, ◌-ℤ◌, ◌*ℤ◌, ◌/ℤ◌, ◌%ℤ◌, eq_ℤ, ltb_ℤ}
use mlnotes.Time.{
  Zone, TimeUnit, seconds, minutes, hours, days, weeks, Exploded, Apr, explode,
  usecs_per_millisecond, usecs_per_second, usecs_per_minute, usecs_per_hour, usecs_per_day,
}

abbrev pub time_add : ℤ → ℤ → ℤ
time_add a b = a +ℤ b

abbrev pub time_sub : ℤ → ℤ → ℤ
time_sub a b = a -ℤ b

abbrev pub time_mod : ℤ → ℤ → ℤ
time_mod a b = a %ℤ b

abbrev pub time_eq : ℤ → ℤ → Bool
time_eq a b = eq_ℤ a b

abbrev pub time_lt : ℤ → ℤ → Bool
time_lt a b = ltb_ℤ a b

unfoldable pub add_days : ℤ → ℤ → ℤ
add_days m_time delta = m_time +ℤ usecs_per_day *ℤ delta

unfoldable pub add_hours : ℤ → ℤ → ℤ
add_hours m_time delta = m_time +ℤ usecs_per_hour *ℤ delta

unfoldable pub add_minutes : ℤ → ℤ → ℤ
add_minutes m_time delta = m_time +ℤ usecs_per_minute *ℤ delta

unfoldable pub add_seconds : ℤ → ℤ → ℤ
add_seconds m_time delta = m_time +ℤ usecs_per_second *ℤ delta

unfoldable pub diff_as_days : ℤ → ℤ → ℤ
diff_as_days higher lower = (higher -ℤ lower) /ℤ usecs_per_day

unfoldable pub diff_as_hours : ℤ → ℤ → ℤ
diff_as_hours higher lower = (higher -ℤ lower) /ℤ usecs_per_hour

unfoldable pub diff_as_minutes : ℤ → ℤ → ℤ
diff_as_minutes higher lower = (higher -ℤ lower) /ℤ usecs_per_minute

unfoldable pub diff_as_seconds : ℤ → ℤ → ℤ
diff_as_seconds higher lower = (higher -ℤ lower) /ℤ usecs_per_second

unfoldable pub diff_as_millis : ℤ → ℤ → ℤ
diff_as_millis higher lower = (higher -ℤ lower) /ℤ usecs_per_millisecond

-- The cases of the switch of `round`, each of which falls through to the next smaller one.
abbrev pub clear_seconds : Exploded → Exploded
clear_seconds et = record et { tm_usec = pos 0 }

abbrev pub clear_minutes : Exploded → Exploded
clear_minutes et = clear_seconds (record et { tm_sec = pos 0 })

abbrev pub clear_hours : Exploded → Exploded
clear_hours et = clear_minutes (record et { tm_min = pos 0 })

abbrev pub clear_days : Exploded → Exploded
clear_days et = clear_hours (record et { tm_hour = pos 0 })

abbrev pub clear_weeks : Exploded → Exploded
clear_weeks et = clear_days (record et {
  tm_yday = et.tm_yday -ℤ et.tm_wday;
  tm_mday = et.tm_mday -ℤ et.tm_wday;
  tm_wday = pos 0;
})

unfoldable pub clear_below : TimeUnit → Exploded → Exploded
clear_below seconds et = clear_seconds et
clear_below minutes et = clear_minutes et
clear_below hours et = clear_hours et
clear_below days et = clear_days et
clear_below weeks et = clear_weeks et

unfoldable pub round : Apr → ℤ → TimeUnit → Zone → Option ℤ
round apr m_time unit tz = apr.exp_gmt_get (clear_below unit (explode apr tz m_time))
