-- ===== src/Terminal.antt =====
-- The terminal of kernel/src/processes/terminal/interface.cpp. What it calls of the drive and of the
-- numbers in floating point is a record of operations; `literal` gives the places of the literals that
-- are compared, and `fuel` bounds the bytes that a string may have.
pub mod Dispatch
pub mod Ready
pub mod Session
use mad_os.Base.{
  ℕ, zero, suc, ◌+◌, ◌*◌, ◌^◌, List, [], ◌∷◌, Bool, true, false, ltb, if◌then◌else◌, u8, u64, codes,
}
use mad_os.Base.Run.{Run, done, ◌>>=◌}
use mad_os.Memory.{Memory}
use mad_os.Frames.{Frames, get_used_ram, get_reserved_ram, get_free_ram}
use mad_os.Strings.{strcmp, atoi, to_string}
use mad_os.Renderer.{FrameBuffer, Font, Screen, put_text, next_line, print_nl, print}
use mad_os.Console.{Console, screen_of, memory_of, with_screen, set_color, new_line}
use mad_os.Keyboard.{enable_keyboard, receive_input}

-- `FS::List` comes to the names that are printed, the pointers of the list up to the first null.
pub record Services : Type 0 where
  pub print_memory_size : Console → (size : ℕ) → Run Console
  pub print_drives : Console → Run Console
  pub format_drive : Console → Run (Console × ℕ)
  pub read_disk_size : Console → (port : ℕ) → Run (Console × ℕ)
  pub list_files : Console → Run (Console × List (List ℕ))
  pub open_file : Console → (name : ℕ) → Run (Console × ℕ)
  pub write_buffer : Console → (name : ℕ) → (text : List ℕ) → Run (Console × Bool)

pub data Command : Type 0 where
  no_command memory_info drives_list drives_mount drives_format : Command
  drives_size fs_list fs_open fs_write : Command

-- The tests of `ExecutePrompt` on the line at `prompt`.
unfoldable pub command_of : (literal : List ℕ → ℕ) → Memory → (prompt : ℕ) → Command
command_of literal m prompt =
    let starts = λ (at_ : ℕ) (word : List ℕ) (n : ℕ). strcmp m (prompt + at_) (literal word) n in
    if starts 0 (codes "memory") 6
    then (if starts 7 (codes "info") 4 then memory_info else no_command)
    else if starts 0 (codes "drives") 6
    then (if starts 7 (codes "list") 4
        then drives_list
        else if starts 7 (codes "mount") 5
        then drives_mount
        else if starts 7 (codes "format") 6
        then drives_format
        else if starts 7 (codes "size") 4
        then drives_size
        else no_command)
    else if starts 0 (codes "fs") 2
    then (if starts 3 (codes "list") 4
        then fs_list
        else if starts 3 (codes "open") 4
        then fs_open
        else if starts 3 (codes "write") 5
        then fs_write
        else no_command)
    else no_command

-- `TakePrompt`
abbrev pub take_prompt : Console → Console
take_prompt c = record c {
  keyboard = receive_input (enable_keyboard c.keyboard true) c.command_prompt;
}

module _ (fb : FrameBuffer) (font : Font) where
  -- `Print` and `PrintNL` of a literal.
  abbrev pub say : Console → List ℕ → Console
  say c text = with_screen c (put_text fb font (screen_of c) text)

  abbrev pub say_line : Console → List ℕ → Console
  say_line c text = new_line (say c text)

  -- The prompt, and the wait for a line.
  unfoldable pub prompt_again : Console → Console
  prompt_again c =
      take_prompt (set_color (say (set_color c 0xcece5a) (codes "Shell:/ > ")) 0xffffffff)

  -- `InitializeTerminal`; `buffer` is what `kmalloc` gives.
  unfoldable pub initialize_terminal : Console → (buffer : ℕ) → Console
  initialize_terminal c buffer = prompt_again (new_line (record c { command_prompt = buffer }))

  unfoldable pub say_names : Console → List (List ℕ) → Console
  say_names c [] = c
  say_names c (name ∷ names) = say_names (say_line c name) names

  module _ (services : Services) (literal : List ℕ → ℕ) (string_buffer fuel : ℕ) where
    -- One of the three lines on memory.
    abbrev pub memory_line : Console → (label : List ℕ) (size : ℕ) → Run Console
    memory_line c label size =
        services.print_memory_size (set_color (say (set_color c 0x73bbc9) label) 0xffffffff) size
        >>= λ c'. done (new_line c')

    abbrev pub show_memory : Console → Run Console
    show_memory c =
        memory_line (say_line (set_color c 0xfec260) (codes "--- Memory Information ---"))
          (codes "Used RAM: ") (get_used_ram c.frames)
        >>= λ c1. memory_line c1 (codes "Reserved RAM: ") (get_reserved_ram c1.frames) >>= λ c2.
            memory_line c2 (codes "Free RAM: ") (get_free_ram c2.frames)

    abbrev pub mount_drive : Console → Run Console
    mount_drive c = atoi fuel (memory_of c) (c.command_prompt + 13) >>= λ number.
        to_string (memory_of c) string_buffer (u8 number) >>= λ m.
        print fb font fuel (record (screen_of c) { mem = m }) string_buffer >>= λ s. done (
          say_line (with_screen (record c { mounted_drive_port = u8 number }) s)
            (codes " - Drive Mounted"))

    -- The branch of a command. `status < 0` and the negation of `d >= 0` do not occur, since both
    -- come from an unsigned byte.
    unfoldable pub run_command : Command → Console → Run Console
    run_command no_command c = done c
    run_command memory_info c = show_memory c
    run_command drives_list c =
        services.print_drives
          (say_line (set_color c 0xfec260) (codes "--- Connected Hard Drives ---"))
    run_command drives_mount c = mount_drive c
    run_command drives_format c = services.format_drive c >>= λ r.
        done (if ltb 0 r.1 then say_line r.0 (codes "Successfully Formatted Drive") else r.0)
    run_command drives_size c = services.read_disk_size c c.mounted_drive_port >>= λ r.
        services.print_memory_size r.0 (u64 (r.1 * 512)) >>= λ c'. done (new_line c')
    run_command fs_list c = services.list_files c >>= λ r. done (say_names r.0 r.1)
    run_command fs_open c = services.open_file c (c.command_prompt + 8) >>= λ r.
        print_nl fb font fuel (screen_of r.0) r.1 >>= λ s. done (with_screen r.0 s)
    run_command fs_write c =
        services.write_buffer c (c.command_prompt + 9) (codes "hello world") >>= λ r.
        done (if r.1 then say_line r.0 (codes "Written successfully") else r.0)

    -- `ExecutePrompt`
    unfoldable pub execute_prompt : Console → Run Console
    execute_prompt c =
        let c1 = record c { keyboard = enable_keyboard c.keyboard false } in
        run_command (command_of literal (memory_of c1) c1.command_prompt) c1 >>= λ c2.
        done (prompt_again c2)
