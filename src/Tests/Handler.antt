-- ===== src/Tests/Handler.antt =====
-- Interrupts of the timer, of another device, and `sleep`.
use mad_os.Base.{ℕ, ◌≡◌, ◌≢◌, ◌≤◌, List, [], ◌∷◌, arith}
use mad_os.Base.Run.{done}
use mad_os.Pci.{Ports}
use mad_os.Interrupts.Handler.{Registers, resumed, sleep, handle_each}
use mad_os.Interrupts.Dispatch.{IsDevice, handle_each-ticks}
use mad_os.Interrupts.Sleep.{sleep_lem}
use mad_os.Tests.Renderer.{frame_buffer, font}
use mad_os.Tests.Console.{console}

sleep_lem_example : sleep 6 100 5 ≡ done 105
sleep_lem_example = sleep_lem 6 100 5 (omega arith) (omega arith)

-- After 65.536 ticks nothing waits any more.
no_wait : sleep 6 70000 5 ≡ done 70000
no_wait = sleep_lem 6 70000 5 (omega arith) (omega arith)

-- The devices are the list of the bytes that were sent.
abbrev ports : Ports (List ℕ)
ports = record {
  outb = λ s port value. port ∷ s;
  outw = λ s port value. s;
  outl = λ s port value. s;
  inb = λ s port. (s, 0);
  inw = λ s port. (s, 0);
  inl = λ s port. (s, 0);
}

abbrev interrupt : ℕ → Registers
interrupt n = record {
  rsi = 0;
  rdi = 0;
  rdx = 0;
  rcx = 0;
  rbx = 0;
  rax = 0;
  isr_number = n;
  rip = 0;
  cs = 8;
  rsp = 0;
  ss = 16;
}

handle_each-ticks_example :
    handle_each frame_buffer font 0x3000 100 ports
      (λ c. done c)
      (λ n. 0)
      (record { console = console; ticks = 7; devices = [] })
      (interrupt 32 ∷ interrupt 44 ∷ interrupt 32 ∷ [])
    ≡ done (
        resumed (record {
          console = console;
          ticks = 9;
          devices = 0x20 ∷ 0xa0 ∷ 0x20 ∷ 0xa0 ∷ 0x20 ∷ 0xa0 ∷ [];
        }))
unfolding mad_os.Interrupts.Dispatch.timer_count mad_os.Interrupts.Dispatch.acknowledged
handle_each-ticks_example =
    handle_each-ticks frame_buffer font 0x3000 100 ports (λ c. done c) (λ n. 0)
      (interrupt 32 ∷ interrupt 44 ∷ interrupt 32 ∷ [])
      (record { console = console; ticks = 7; devices = [] }) (omega arith)
      (
        device 32 (omega arith) (λ e. omega arith),
        (
          device 44 (omega arith) (λ e. omega arith),
          (device 32 (omega arith) (λ e. omega arith), tt),
        ),
      )
  where
    device : (n : ℕ) → 32 ≤ n → n ≢ 33 → IsDevice (interrupt n)
    device n h ne = record { no_exception = h; no_keyboard = ne }
