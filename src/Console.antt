-- ===== src/Console.antt =====
-- The variables that the screen, the keyboard and the terminal share: those of the class `BasicRenderer`
-- with the memory, of kernel/src/userinput/keyboard.cpp and of
-- kernel/src/processes/terminal/interface.cpp.
use mad_os.Base.{ℕ, Bool}
use mad_os.Memory.{Memory}
use mad_os.Frames.{Frames}
use mad_os.Renderer.{Screen, next_line}

pub record Keyboard : Type 0 where
  pub screen : Screen
  pub is_enabled : Bool
  pub upper_case : Bool
  pub input : ℕ
  pub input_len : ℕ

-- The keyboard with the screen and the memory, the terminal's variable, the drive that is mounted,
-- and the counters of the page allocator.
pub record Console : Type 0 where
  pub keyboard : Keyboard
  pub command_prompt : ℕ
  pub mounted_drive_port : ℕ
  pub frames : Frames

abbrev pub screen_of : Console → Screen
screen_of c = c.keyboard.screen

abbrev pub memory_of : Console → Memory
memory_of c = c.keyboard.screen.mem

abbrev pub with_screen : Console → Screen → Console
with_screen c s = record c { keyboard = record c.keyboard { screen = s } }

-- `GlobalRenderer->color = color`
abbrev pub set_color : Console → ℕ → Console
set_color c color = with_screen c (record (screen_of c) { color = color })

abbrev pub new_line : Console → Console
new_line c = with_screen c (next_line (screen_of c))
