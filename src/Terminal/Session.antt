-- ===== src/Terminal/Session.antt =====
-- A line is typed, Enter is pressed, and a drive is mounted.
use mad_os.Terminal.{Services, drives_mount, command_of, execute_prompt}
use mad_os.Terminal.Ready.{IsReady, execute_prompt-mounts}
use mad_os.Console.{Keyboard, Console, screen_of, new_line}
use mad_os.Keyboard.{handle_keyboard, handle_all}
use mad_os.Keyboard.Line.{Line, Typed, edit_all, IsLine, Keeps}
use mad_os.Keyboard.Edits.{IsEditing, handle_all-edit_all}
use mad_os.Base.{
  ℕ, ◌+◌, ◌^◌, ◌≤◌, ◌<◌, ◌≡◌, refl, ◌∙◌, ap, fun_ext, List, [], ◌∷◌, ◌++◌, true, not, if◌then◌else◌,
  length, All, u8, arith,
}
use mad_os.Base.Run.{Run, done, fault, out_of_fuel, ◌>>=◌}
use mad_os.Strings.{atoi}
use mad_os.Renderer.{FrameBuffer, Font}
use mad_os.Renderer.Reach.{FarFrom}

handle_all-append :
    (fb : FrameBuffer) (font : Font) (enter : Console → Run Console) (xs ys : List ℕ)
    (c c' : Console)
    → handle_all fb font enter c xs ≡ done c'
    → handle_all fb font enter c (xs ++ ys) ≡ handle_all fb font enter c' ys
unfolding handle_all
handle_all-append fb font enter xs ys c c' run = all xs c ∙ ap (λ r. r >>= rest) run
  where
    rest : Console → Run Console
    rest c1 = handle_all fb font enter c1 ys

    assoc :
        (r : Run Console) (f g : Console → Run Console) → (r >>= λ x. f x >>= g) ≡ (r >>= f >>= g)
    assoc (done c1) f g = refl
    assoc fault f g = refl
    assoc out_of_fuel f g = refl

    all :
        (xs : List ℕ) (c : Console)
        → handle_all fb font enter c (xs ++ ys) ≡ (handle_all fb font enter c xs >>= rest)
    all [] c = refl
    all (x ∷ xs) c =
        ap (λ f. handle_keyboard fb font enter c x >>= f) (fun_ext λ c1. all xs c1)
        ∙ assoc (handle_keyboard fb font enter c x) (λ c1. handle_all fb font enter c1 xs) rest

-- Enter, with the keyboard on, executes the line.
enter_key :
    (fb : FrameBuffer) (font : Font) (enter : Console → Run Console) (c c' : Console)
    → c.keyboard.is_enabled ≡ true
    → enter (new_line c) ≡ done c'
    → handle_all fb font enter c (0x1c ∷ []) ≡ done c'
unfolding handle_all handle_keyboard
enter_key fb font enter c c' on run =
    let all = λ (r : Run Console). r >>= λ c1. handle_all fb font enter c1 [] in
    ap (λ b. all (if not b then done c else enter (new_line c))) on ∙ ap all run

-- If the terminal is ready, at most `size` keys are pressed or released, as many as its buffer has bytes
-- out of the renderer's reach, none of them Enter or Caps Lock, and the line that they edit selects
-- `drives mount` and has a number behind it that `atoi` reads, then Enter mounts the drive of that
-- number, of which a byte is kept: no interrupt on the way fails, and the terminal is ready again, with
-- the same buffer. The buffer of `to_string` is out of reach too.
pub line-mounts :
    (fb : FrameBuffer) (font : Font) (services : Services) (literal : List ℕ → ℕ)
    (string_buffer fuel size : ℕ) (c : Console) (scancodes : List ℕ) (number : ℕ)
    → 10 < fuel
    → ((j : ℕ) → j ≤ 10 → FarFrom fb (string_buffer + j))
    → ((j : ℕ) → j < size → FarFrom fb (c.command_prompt + j))
    → size < 2 ^ 32
    → IsReady c.command_prompt c
    → (screen_of c).x < 2 ^ 32
    → All IsEditing scancodes
    → length scancodes ≤ size
    → ((k : Keyboard)
        → IsLine c.command_prompt
            (edit_all (record { newest = []; upper = c.keyboard.upper_case }) scancodes)
            k
        → Keeps fb c.command_prompt size c.keyboard k
        → (command_of literal k.screen.mem c.command_prompt ≡ drives_mount)
          × (atoi fuel k.screen.mem (c.command_prompt + 13) ≡ done number))
    → (c' : Console) × (handle_all fb font
          (execute_prompt fb font services literal string_buffer fuel)
          c
          (scancodes ++ 0x1c ∷ [])
        ≡ done c')
      × IsReady c.command_prompt c'
      × (c'.mounted_drive_port ≡ u8 number)
unfolding Typed
line-mounts fb font services literal string_buffer fuel size c scancodes number enough far far'
      small ready x all bound says =
    let enter = execute_prompt fb font services literal string_buffer fuel in
    let line : Line = record { newest = []; upper = c.keyboard.upper_case } in
    let (k, typed, l, keeps) =
      handle_all-edit_all fb font c.command_prompt size far' small enter scancodes line c all
        (omega arith)
        (record {
          enabled = ready.is_on;
          upper = refl;
          place = omega (arith, ready.place);
          count = ready.empty;
          text = tt;
          cursor = x;
        }) in
    let c1 : Console = record c { keyboard = k } in
    let (selects, reads) = says k l keeps in
    let (c2, executed, ready', mounted) =
      execute_prompt-mounts fb font services literal string_buffer fuel (new_line c1) number enough
        (omega arith) far selects reads in
    (
      c2,
      handle_all-append fb font enter scancodes (0x1c ∷ []) c c1 typed
          ∙ enter_key fb font enter c1 c2 l.enabled executed,
      ready',
      mounted,
    )
