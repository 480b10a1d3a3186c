-- ===== src/Interrupts/Dispatch.antt =====
-- What a sequence of interrupts of devices other than the keyboard comes to.
use mad_os.Interrupts.Handler.{
  Registers, Machine, Outcome, resumed, handle_timer, isr_handler, handle_each,
}
use mad_os.Base.{
  ℕ, zero, suc, ◌+◌, ◌^◌, ◌≤◌, ◌<◌, ◌≡◌, ◌≢◌, ◌∙◌, ap, List, [], ◌∷◌, false, ◌==◌, ltb,
  if◌then◌else◌, length, All, Bool-cases, inl, inr, u64, arith,
}
use mad_os.Base.Run.{Run, done}
use mad_os.Console.{Console}
use mad_os.Renderer.{FrameBuffer, Font}
use mad_os.Pci.{Ports}

-- The interrupts of the timer among them.
unfoldable pub timer_count : List Registers → ℕ
timer_count [] = 0
timer_count (r ∷ rs) = let rest = timer_count rs in if r.isr_number == 32 then suc rest else rest

-- Both interrupt controllers are told that an interrupt is over, `n` times.
unfoldable pub acknowledged : {S : Type 0} → Ports S → (n : ℕ) → S → S
acknowledged ports zero s = s
acknowledged ports (suc n) s = acknowledged ports n (ports.outb (ports.outb s 0xa0 0x20) 0x20 0x20)

-- An interrupt of a device other than the keyboard.
pub record IsDevice (r : Registers) : Type 0 where
  pub no_exception : 32 ≤ r.isr_number
  pub no_keyboard : r.isr_number ≢ 33

-- After a sequence of interrupts of devices other than the keyboard, `ticks` has advanced by the
-- number of those of the timer, modulo `2 ^ 64`, both interrupt controllers were told of the end of
-- each, and the console is as it was.
pub handle_each-ticks :
    {S : Type 0} (fb : FrameBuffer) (font : Font) (string_buffer fuel : ℕ) (ports : Ports S)
    (enter_handler : Console → Run Console) (exception_desc : ℕ → ℕ) (rs : List Registers)
    (w : Machine S)
    → w.ticks < 2 ^ 64
    → All IsDevice rs
    → handle_each fb font string_buffer fuel ports enter_handler exception_desc w rs
      ≡ done (
          resumed (record {
            console = w.console;
            ticks = u64 (w.ticks + timer_count rs);
            devices = acknowledged ports (length rs) w.devices;
          }))
unfolding handle_each isr_handler timer_count acknowledged
handle_each-ticks fb font string_buffer fuel ports enter_handler exception_desc [] w word all =
    let e : w.ticks ≡ u64 (w.ticks + 0) = omega arith in
    ap (λ t. done (resumed (record { console = w.console; ticks = t; devices = w.devices }))) e
handle_each-ticks {S} fb font string_buffer fuel ports enter_handler exception_desc (r ∷ rs) w word
      (device, all) =
    let above : ltb r.isr_number 32 ≡ false = ground (arith, device.no_exception) in
    let other : (r.isr_number == 33) ≡ false = ground (arith, device.no_keyboard) in
    let next : (t : ℕ) → Machine S = λ t. record {
      console = w.console;
      ticks = t;
      devices = ports.outb (ports.outb w.devices 0xa0 0x20) 0x20 0x20;
    } in
    let last : (t : ℕ) → Run (Outcome S) = λ t. done (
      resumed (record {
        console = w.console;
        ticks = t;
        devices = acknowledged ports (suc (length rs)) w.devices;
      })) in
    elim (Bool-cases (r.isr_number == 32)) [
      | inl timer ↦
          rw (above, other, timer)
            (handle_each-ticks fb font string_buffer fuel ports enter_handler exception_desc rs
                (next (handle_timer w.ticks)) (omega arith) all
              ∙ ap last (omega arith))
      | inr silent ↦
          rw (above, other, silent)
            (handle_each-ticks fb font string_buffer fuel ports enter_handler exception_desc rs
              (next w.ticks) word all)
    ]
