-- ===== src/Tests/Console.antt =====
-- The keyboard, and what stands in memory for the terminal.
use mad_os.Base.{
  ℕ, ◌+◌, ◌-◌, ◌≡◌, inl, refl, List, [], ◌∷◌, true, false, not, ◌==◌, leb, ◌&&◌, if◌then◌else◌,
  get_or, codes, All, arith,
}
use mad_os.Base.Run.{done}
use mad_os.Memory.{Memory}
use mad_os.Tests.Renderer.{frame_buffer, font}
use mad_os.Console.{Keyboard, Console}
use mad_os.Keyboard.{handle_all, receive_input}
use mad_os.Keyboard.Line.{letter, edit, edit_all, IsLine, Keeps}
use mad_os.Keyboard.Edits.{IsEditing, handle_all-IsLine}
use mad_os.Terminal.Dispatch.{Written, words}

-- The words of the terminal from 0x5000 on, and a line at 0x4000.
abbrev image : List ℕ
image = codes "memoryinfodriveslistmountformatsizefsopenwrite"

abbrev line : List ℕ
line = codes "fs list"

abbrev pub memory : Memory
memory a =
    if leb 0x5000 a
    then get_or image (a - 0x5000) 0
    else if leb 0x4000 a
    then get_or line (a - 0x4000) 0
    else 0

-- Where a word stands: words are told apart by their first two letters.
abbrev pub literal : List ℕ → ℕ
literal word =
    let first = get_or word 0 0 in
    let second = get_or word 1 0 in
    0x5000
    + (if first == b'm'
        then (if second == b'e' then 0 else 20)
        else if first == b'i'
        then 6
        else if first == b'd'
        then 10
        else if first == b'l'
        then 16
        else if first == b'f'
        then (if second == b'o' then 25 else 35)
        else if first == b's'
        then 31
        else if first == b'o'
        then 37
        else 41)

pub words_stand : All (λ word. Written memory (literal word) word) words
words_stand = (
  (refl, (refl, (refl, (refl, (refl, (refl, tt)))))),
  (
    (refl, (refl, (refl, (refl, tt)))),
    (
      (refl, (refl, (refl, (refl, (refl, (refl, tt)))))),
      (
        (refl, (refl, (refl, (refl, tt)))),
        (
          (refl, (refl, (refl, (refl, (refl, tt))))),
          (
            (refl, (refl, (refl, (refl, (refl, (refl, tt)))))),
            (
              (refl, (refl, (refl, (refl, tt)))),
              (
                (refl, (refl, tt)),
                (
                  (refl, (refl, (refl, (refl, tt)))),
                  ((refl, (refl, (refl, (refl, (refl, tt))))), tt),
                ),
              ),
            ),
          ),
        ),
      ),
    ),
  ),
)

abbrev pub console : Console
console = record {
  keyboard = record {
    screen = record { mem = memory; x = 8; y = 16; color = 0xffffffff };
    is_enabled = true;
    upper_case = false;
    input = 0x4000;
    input_len = 0;
  };
  command_prompt = 0x4000;
  mounted_drive_port = 1;
  frames = record {
    mem = memory;
    page_bitmap = record { buffer = 0; size = 0 };
    allocated_memory = 0;
    reserved_memory = 0;
    free_memory = 0;
    is_initialized = true;
    bitmap_index = 0;
    memory_map_size = 0;
  };
}

-- `m` in upper case, `e`, and Backspace.
abbrev keys : List ℕ
keys = 0x2a ∷ 0x32 ∷ 0xaa ∷ 0x12 ∷ 0x0e ∷ []

edited : (edit_all (record { newest = []; upper = false }) keys).newest ≡ b'M' ∷ []
unfolding edit_all edit letter
edited = refl

pub key : (n : ℕ) → (not (n == 0x1c) && not (n == 58)) ≡ true → IsEditing n
key n h = record { not_enter = λ e. ground arith; not_caps_lock = λ e. ground arith }

handle_all-IsLine_example :
    (k' : Keyboard) × (handle_all frame_buffer font
        (λ c. done c)
        (record console { keyboard = receive_input console.keyboard 0x4000 })
        keys
      ≡ done (record console { keyboard = k' }))
    × IsLine 0x4000 (edit_all (record { newest = []; upper = false }) keys) k'
    × Keeps frame_buffer 0x4000 256 console.keyboard k'
handle_all-IsLine_example =
    handle_all-IsLine frame_buffer font (λ c. done c) 0x4000 256 console keys
      (λ j lt. inl (omega arith)) (omega arith) refl (omega arith)
      (key 0x2a refl, (key 0x32 refl, (key 0xaa refl, (key 0x12 refl, (key 0x0e refl, tt)))))
      (omega arith)
