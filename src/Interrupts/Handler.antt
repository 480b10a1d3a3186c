-- ===== src/Interrupts/Handler.antt =====
-- The dispatch of interrupts, `isr_handler` of kernel/src/interrupts/IST.cpp, and the timer of
-- kernel/src/timer/pit.cpp. The ports of the processor are the operations `Ports`, and the byte that
-- the keyboard's port gives is read from them.
use mad_os.Base.{
  ℕ, zero, suc, ◌+◌, List, [], ◌∷◌, true, false, not, ◌==◌, ltb, if◌then◌else◌, u16, u64, codes,
}
use mad_os.Base.Run.{Run, done, out_of_fuel, ◌>>=◌}
use mad_os.Pci.{Ports}
use mad_os.Console.{Console, screen_of, with_screen, set_color, new_line}
use mad_os.Renderer.{FrameBuffer, Font, put_text, print}
use mad_os.Strings.{to_string}
use mad_os.Keyboard.{handle_keyboard}

-- `HandleTimer`, on the variable `ticks`.
abbrev pub handle_timer : ℕ → ℕ
handle_timer ticks = u64 (ticks + 1)

-- The loop of `sleep`, during which the timer interrupts once in every round.
unfoldable pub wait_loop : ℕ → (ticks target : ℕ) → Run ℕ
wait_loop zero ticks target = out_of_fuel
wait_loop (suc fuel) ticks target = elim (ltb ticks target) [
  | true ↦ wait_loop fuel (handle_timer ticks) target
  | false ↦ done ticks
]

-- `sleep`: the target is a `uint16_t`. The result is `ticks` at the end.
unfoldable pub sleep : ℕ → (ticks interval : ℕ) → Run ℕ
sleep fuel ticks interval = wait_loop fuel ticks (u16 (ticks + interval))

-- The fields of `registers_t` that the handler reads.
pub record Registers : Type 0 where
  pub rsi : ℕ
  pub rdi : ℕ
  pub rdx : ℕ
  pub rcx : ℕ
  pub rbx : ℕ
  pub rax : ℕ
  pub isr_number : ℕ
  pub rip : ℕ
  pub cs : ℕ
  pub rsp : ℕ
  pub ss : ℕ

-- What the handler works on: the console, the variable `ticks`, and the devices behind the ports.
pub record Machine (S : Type 0) : Type 0 where
  pub console : Console
  pub ticks : ℕ
  pub devices : S

-- The handler returns, or stops the processor behind an exception.
pub data Outcome (S : Type 0) : Type 0 where
  resumed : (machine : Machine S) → Outcome S
  halted : (machine : Machine S) → Outcome S

module _ (fb : FrameBuffer) (font : Font) (string_buffer fuel : ℕ) where
  -- A label and a register, on a line.
  unfoldable pub show_register : Console → (label : List ℕ) (value : ℕ) → Run Console
  show_register c label value =
      let s = put_text fb font (screen_of c) label in
      to_string s.mem string_buffer value >>= λ m.
      print fb font fuel (record s { mem = m }) string_buffer >>= λ s'.
      done (new_line (with_screen c s'))

  -- What is shown of an exception; `desc` is the place of its name.
  unfoldable pub show_exception : Console → (desc : ℕ) → Registers → Run Console
  show_exception c desc r =
      let c1 = new_line (set_color c 0xff00ffff) in
      let s1 = put_text fb font (screen_of c1) (codes "Exception: ") in
      print fb font fuel s1 desc >>= λ s2.
      show_register (new_line (with_screen c1 s2)) (codes "  rax=") r.rax >>= λ c2.
      show_register c2 (codes "  rbx=") r.rbx >>= λ c3.
      show_register c3 (codes "  rcx=") r.rcx >>= λ c4.
      show_register c4 (codes "  rdx=") r.rdx >>= λ c5.
      show_register c5 (codes "  rsi=") r.rsi >>= λ c6.
      show_register c6 (codes "  rdi=") r.rdi >>= λ c7.
      show_register c7 (codes "  rip=") r.rip >>= λ c8.
      show_register c8 (codes "  rsp=") r.rsp >>= λ c9.
      show_register c9 (codes "  cs=") r.cs >>= λ c10. show_register c10 (codes "  ss=") r.ss

  module _ {S : Type 0} (ports : Ports S) (enter_handler : Console → Run Console)
      (exception_desc : ℕ → ℕ) where
    -- `HandleKeyboard`, which reads the port only if the keyboard is enabled.
    unfoldable pub keyboard_interrupt : Machine S → Run (Machine S)
    keyboard_interrupt w =
        let (devices, scancode) = ports.inb w.devices 0x60 in
        if not w.console.keyboard.is_enabled
        then done w
        else handle_keyboard fb font enter_handler w.console scancode >>= λ c.
            done (record w { console = c; devices = devices })

    -- The two acknowledgements at the end of the handler.
    abbrev pub acknowledge : Machine S → Machine S
    acknowledge w = record w { devices = ports.outb (ports.outb w.devices 0xa0 0x20) 0x20 0x20 }

    unfoldable pub isr_handler : Machine S → Registers → Run (Outcome S)
    isr_handler w r =
        if ltb r.isr_number 32
        then (show_exception w.console (exception_desc r.isr_number) r >>= λ c.
            done (halted (record w { console = c })))
        else let w1 = if r.isr_number == 32 then record w { ticks = handle_timer w.ticks } else w in
          (if r.isr_number == 33 then keyboard_interrupt w1 else done w1) >>= λ w2.
          done (resumed (acknowledge w2))

    -- The interrupts of devices, one after the other; behind an exception nothing runs.
    unfoldable pub handle_each : Machine S → List Registers → Run (Outcome S)
    handle_each w [] = done (resumed w)
    handle_each w (r ∷ rs) = isr_handler w r >>= λ outcome. elim outcome [
      | resumed w' ↦ handle_each w' rs
      | halted w' ↦ done (halted w')
    ]
