-- ===== src/Interrupts/Sleep.antt =====
-- How long `sleep` waits.
use mad_os.Interrupts.Handler.{handle_timer, wait_loop, sleep}
use mad_os.Base.{
  ℕ, zero, suc, ◌+◌, ◌^◌, ◌<◌, ◌≡◌, inl, inr, refl, ap, true, false, ltb, u16, if◌then◌else◌,
  Bool-cases, arith,
}
use mad_os.Base.Run.{done}

-- The loop ends once the target is reached.
wait_loop-target :
    (left fuel ticks target : ℕ)
    → left < fuel
    → ticks + left ≡ target
    → target < 2 ^ 64
    → wait_loop fuel ticks target ≡ done target
unfolding wait_loop
wait_loop-target left zero ticks target enough e small = absurd (omega arith)
wait_loop-target zero (suc fuel) ticks target enough e small =
    let reached : ltb ticks target ≡ false = ground arith in
    let same : ticks ≡ target = omega arith in rw (wait_loop, reached) (ap done same)
wait_loop-target (suc left) (suc fuel) ticks target enough e small =
    let before : ltb ticks target ≡ true = ground arith in
    rw (wait_loop, before)
      (wait_loop-target left fuel (handle_timer ticks) target (omega arith) (omega arith) small)

-- If the timer ticks in every round, `sleep` ends; it waits for the interval while the sum of `ticks`
-- and the interval is below `2 ^ 16`, and from then on returns at once, without waiting.
pub sleep_lem :
    (fuel ticks interval : ℕ)
    → interval < 2 ^ 16
    → interval < fuel
    → sleep fuel ticks interval
      ≡ done (if ltb (ticks + interval) (2 ^ 16) then ticks + interval else ticks)
unfolding sleep wait_loop
sleep_lem zero ticks interval word enough = absurd (omega arith)
sleep_lem (suc fuel) ticks interval word enough =
    elim (Bool-cases (ltb (ticks + interval) (2 ^ 16))) [
      | inl small ↦
          let same : u16 (ticks + interval) ≡ ticks + interval = ground arith in
          rw (small, same)
            (wait_loop-target interval (suc fuel) ticks (ticks + interval) enough refl
              (ground arith))
      | inr large ↦
          let reached : ltb ticks (u16 (ticks + interval)) ≡ false = ground arith in
          rw (large, wait_loop, reached) refl
    ]
