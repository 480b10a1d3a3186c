-- ===== src/Terminal/Ready.antt =====
-- The terminal mounts a drive, and waits for the next line.
use mad_os.Terminal.{Services, drives_mount, command_of, run_command, prompt_again, execute_prompt}
use mad_os.Base.{
  ℕ, zero, suc, ◌+◌, ◌^◌, ◌≤◌, ◌<◌, ◌≡◌, refl, ◌∙◌, List, true, false, ◌==◌, u8, Bool-cases, inl,
  inr, arith,
}
use mad_os.Base.Run.{Run, done}
use mad_os.Console.{Console, screen_of, memory_of}
use mad_os.Keyboard.{enable_keyboard}
use mad_os.Strings.{atoi}
use mad_os.Strings.RoundTrip.{to_string-Decimal, few_digits}
use mad_os.Renderer.{FrameBuffer, Font, Screen, put_char, print}
use mad_os.Renderer.Reach.{FarFrom, put_char_frame, put_char-x}

-- A string that ends can be printed.
print_ends :
    (fb : FrameBuffer) (font : Font) (k fuel : ℕ) (s : Screen) (p : ℕ)
    → k < fuel
    → s.x < 2 ^ 32
    → s.mem (p + k) ≡ 0
    → ((j : ℕ) → j ≤ k → FarFrom fb (p + j))
    → (t : Screen) × (print fb font fuel s p ≡ done t)
unfolding print
print_ends fb font k zero s p enough h ends far = absurd (omega arith)
print_ends fb font zero (suc fuel) s p enough h ends far =
    let e : p + 0 ≡ p = omega arith in
    let zero_here : s.mem p ≡ 0 = rw e at ends in
    let stop : (s.mem p == 0) ≡ true = ground arith in (s, rw (print, stop) refl)
print_ends fb font (suc k) (suc fuel) s p enough h ends far = elim (Bool-cases (s.mem p == 0)) [
  | inl stop ↦ (s, rw (print, stop) refl)
  | inr go ↦
      let s' = put_char fb font s (s.mem p) in
      let e : p + 1 + k ≡ p + suc k = omega arith in
      let ends' : s'.mem (p + 1 + k) ≡ 0 =
        rw e
          (put_char_frame fb (p + suc k) (far (suc k) (omega arith)) font s (s.mem p) h ∙ ends) in
      let (t, run) =
        print_ends fb font k fuel s' (p + 1) (omega arith) (put_char-x fb font s (s.mem p)) ends'
          (λ j le.
            let e' : p + 1 + j ≡ p + suc j = omega arith in rw e' (far (suc j) (omega arith))) in
      (t, rw (print, go) run)
]

-- The terminal waits for a line: the keyboard is on, it writes to the start of the terminal's buffer,
-- no letter is typed yet, and what is typed shows in white.
pub record IsReady (prompt : ℕ) (c : Console) : Type 0 where
  pub is_on : c.keyboard.is_enabled ≡ true
  pub place : c.keyboard.input ≡ prompt
  pub empty : c.keyboard.input_len ≡ 0
  pub white : (screen_of c).color ≡ 0xffffffff
  pub same_prompt : c.command_prompt ≡ prompt

-- What `drives mount` comes to: the number is printed, and noted as that of the drive.
abbrev pub Mounts : (number : ℕ) → Console → Run Console → Type 0
Mounts number c run =
    (c' : Console) × (run ≡ done c')
    × (c'.command_prompt ≡ c.command_prompt)
    × (c'.mounted_drive_port ≡ u8 number)

module _ (fb : FrameBuffer) (font : Font) (services : Services) (literal : List ℕ → ℕ)
    (string_buffer fuel : ℕ) (enough : 10 < fuel)
    (far : (j : ℕ) → j ≤ 10 → FarFrom fb (string_buffer + j)) (c : Console) (number : ℕ)
    (x : (screen_of c).x < 2 ^ 32) where
  mounts :
      atoi fuel (memory_of c) (c.command_prompt + 13) ≡ done number
      → Mounts number c (run_command fb font services literal string_buffer fuel drives_mount c)
  unfolding run_command
  mounts reads =
      let (k, m, run, decimal) =
        to_string-Decimal (memory_of c) string_buffer (u8 number) (omega arith) in
      let short : k ≤ 10 =
        few_digits string_buffer (u8 number) k (memory_of c) m decimal (omega arith) in
      let (t, printed) =
        print_ends fb font k fuel (record (screen_of c) { mem = m }) string_buffer (omega arith) x
          decimal.terminator (λ j le. far j (omega arith)) in
      rw (reads, run, printed) (_, refl, refl, refl)

-- If the line selects `drives mount`, a number can be read behind these words, and the buffer of
-- `to_string` is out of the renderer's reach, then `ExecutePrompt` ends, the drive of that number, of
-- which a byte is kept, is mounted, and the terminal waits for the next line.
pub execute_prompt-mounts :
    (fb : FrameBuffer) (font : Font) (services : Services) (literal : List ℕ → ℕ)
    (string_buffer fuel : ℕ) (c : Console) (number : ℕ)
    → 10 < fuel
    → (screen_of c).x < 2 ^ 32
    → ((j : ℕ) → j ≤ 10 → FarFrom fb (string_buffer + j))
    → command_of literal (memory_of c) c.command_prompt ≡ drives_mount
    → atoi fuel (memory_of c) (c.command_prompt + 13) ≡ done number
    → (c' : Console) × (execute_prompt fb font services literal string_buffer fuel c ≡ done c')
      × IsReady c.command_prompt c'
      × (c'.mounted_drive_port ≡ u8 number)
unfolding execute_prompt prompt_again
execute_prompt-mounts fb font services literal string_buffer fuel c number enough x far selects
      reads =
    let c1 : Console = record c { keyboard = enable_keyboard c.keyboard false } in
    let (c2, run, same, mounted) =
      mounts fb font services literal string_buffer fuel enough far c1 number x reads in
    (
      prompt_again fb font c2,
      rw (selects, run) refl,
      record { is_on = refl; place = same; empty = refl; white = refl; same_prompt = same },
      mounted,
    )
