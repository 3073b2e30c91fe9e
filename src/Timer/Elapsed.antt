-- ===== src/Timer/Elapsed.antt =====
-- DRIVERS/keyboard_timer.c: what the elapsed times are worth.
