-- ===== src/Timer.antt =====
-- DRIVERS/keyboard_timer.c: times from the system's tick, which is a parameter (rt_tick_get, with
-- RT_TICK_MAX of RT-Thread).
pub mod Elapsed
use ch583_kbd_rtt.Base.{ℕ, ◌+◌, ◌-◌, ◌%◌, ◌^◌, ltb, if◌then◌else◌, u16, u32}
use ch583_kbd_rtt.Event.{timer_diff_16}

abbrev pub rt_tick_max : ℕ
rt_tick_max = 0xffffffff

unfoldable pub timer_read : ℕ → ℕ
timer_read tick = u16 (tick % 0xFFFF)

unfoldable pub timer_elapsed : ℕ → ℕ → ℕ
unfolding timer_read
timer_elapsed tick last = timer_diff_16 (timer_read tick) last

-- The differences are those of `uint32_t`.
unfoldable pub timer_elapsed32 : ℕ → ℕ → ℕ
timer_elapsed32 tick last =
    if ltb last tick then tick - last else u32 (u32 (tick + 2 ^ 32 - last) + rt_tick_max)
