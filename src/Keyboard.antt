-- ===== src/Keyboard.antt =====
-- The keyboard of kernel/src/userinput/keyboard.cpp: its functions on the variables
-- of Console.
-- The byte that the keyboard's port gives, and `EnterHandler`, are arguments.
pub mod Line
pub mod Edits
use mad_os.Base.{
  ℕ, zero, suc, ◌+◌, ◌-◌, ◌^◌, List, [], ◌∷◌, ◌++◌, Option, some, none, Bool, true, false, not,
  ◌==◌, ltb, if◌then◌else◌, u8, u32, get_elem?, codes,
}
use mad_os.Base.Run.{Run, done, fault, ◌>>=◌}
use mad_os.Memory.{store8}
use mad_os.Renderer.{FrameBuffer, Font, Screen, put_char, remove_char}
use mad_os.Console.{Keyboard, Console, new_line}

abbrev pub ascii_table : List ℕ
ascii_table =
    0 ∷ 0 ∷ codes "1234567890-="
    ++ 0 ∷ 0 ∷ codes "qwertyuiop[]"
    ++ 0 ∷ 0 ∷ codes "asdfghjkl;'`"
    ++ 0 ∷ codes "\\zxcvbnm,./"
    ++ 0 ∷ b'*' ∷ 0 ∷ b' ' ∷ []

abbrev pub enable_keyboard : Keyboard → Bool → Keyboard
enable_keyboard k will_enable = record k { is_enabled = will_enable }

abbrev pub receive_input : Keyboard → (c : ℕ) → Keyboard
receive_input k c = record k { input_len = 0; input = c }

-- `*input = c`
abbrev pub write_input : Keyboard → (c : ℕ) → Keyboard
write_input k c = record k { screen = record k.screen { mem = store8 k.screen.mem k.input c } }

unfoldable pub backspace : FrameBuffer → Keyboard → Keyboard
backspace fb k =
    if k.input_len == 0
    then k
    else let k' = write_input (record k { input = k.input - 1 }) 0 in
      record k' { input_len = k.input_len - 1; screen = remove_char fb k'.screen }

module _ (fb : FrameBuffer) (font : Font) where
  -- What becomes of a letter.
  unfoldable pub type_letter : Keyboard → (c : ℕ) → Keyboard
  type_letter k c =
      let k' = write_input (record k { screen = put_char fb font k.screen c }) c in
      record k' { input = k.input + 1; input_len = u32 (k.input_len + 1) }

  -- An index behind the table's end is undefined.
  unfoldable pub translate_scancode : Keyboard → (byte : ℕ) → Run Keyboard
  translate_scancode k byte = if ltb 58 byte then done k else elim (get_elem? ascii_table byte) [
    | none ↦ fault
    | some c ↦ done (type_letter k (if k.upper_case then u8 (c + 2 ^ 8 - 32) else c))
  ]

  unfoldable pub put_spaces : ℕ → Screen → Screen
  put_spaces zero s = s
  put_spaces (suc left) s = put_spaces left (put_char fb font s b' ')

  module _ (enter_handler : Console → Run Console) where
    -- `HandleKeyboard`, for the byte `scancode` at the port.
    unfoldable pub handle_keyboard : Console → (scancode : ℕ) → Run Console
    handle_keyboard c scancode =
        let k = c.keyboard in
        let settle = λ (k' : Keyboard). record c { keyboard = k' } in
        if not k.is_enabled
        then done c
        else if scancode == 0xaa
        then done (settle (record k { upper_case = false }))
        else if scancode == 0x2a
        then done (settle (record k { upper_case = true }))
        else if scancode == 0xf
        then done (settle (record k { screen = put_spaces 4 k.screen }))
        else if scancode == 0x0e
        then done (settle (backspace fb k))
        else if scancode == 0x1c
        then enter_handler (new_line c)
        else translate_scancode k scancode >>= λ k'. done (settle k')

    -- The interrupts of the keyboard, one after the other.
    unfoldable pub handle_all : Console → (scancodes : List ℕ) → Run Console
    handle_all c [] = done c
    handle_all c (scancode ∷ scancodes) =
        handle_keyboard c scancode >>= λ c'. handle_all c' scancodes
