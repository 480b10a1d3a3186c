-- ===== src/Tests/Terminal.antt =====
-- The terminal, with services that do nothing, mounts a drive.
use mad_os.Base.{
  ℕ, ◌+◌, ◌≡◌, ◌≤◌, ◌<◌, length, ap, ◌∙◌, ◌++◌, inl, refl, List, [], ◌∷◌, true, false, All, inr,
  arith,
}
use mad_os.Base.Run.{done}
use mad_os.Strings.{atoi, is_digit}
use mad_os.Strings.Decimal.{value, atoi-value}
use mad_os.Memory.{Memory}
use mad_os.Tests.Renderer.{frame_buffer, font}
use mad_os.Console.{Keyboard, Console}
use mad_os.Keyboard.{handle_all}
use mad_os.Keyboard.Line.{letter, edit, edit_all, Typed, IsLine, Keeps}
use mad_os.Keyboard.Edits.{IsEditing}
use mad_os.Terminal.{Services, command_of, drives_mount, execute_prompt}
use mad_os.Terminal.Dispatch.{Written, words, command_of-spelling}
use mad_os.Terminal.Ready.{IsReady}
use mad_os.Terminal.Session.{line-mounts}
use mad_os.Tests.Console.{memory, literal, words_stand, console, key}

abbrev services : Services
services = record {
  print_memory_size = λ c size. done c;
  print_drives = λ c. done c;
  format_drive = λ c. done (c, 1);
  read_disk_size = λ c port. done (c, 512);
  list_files = λ c. done (c, []);
  open_file = λ c name. done (c, 0x6000);
  write_buffer = λ c name text. done (c, true);
}

-- The keys of `drives mount 7`.
abbrev mount_keys : List ℕ
mount_keys =
    0x20 ∷ 0x13 ∷ 0x17 ∷ 0x2f ∷ 0x12 ∷ 0x1f ∷ 0x39 ∷ 0x32 ∷ 0x18 ∷ 0x16 ∷ 0x31 ∷ 0x14 ∷ 0x39 ∷ 0x08
    ∷ []

Written-kept :
    (m : Memory) (p : ℕ) (text : List ℕ)
    → ((a : ℕ) → 0x5000 ≤ a → a < 0x6000 → m a ≡ memory a)
    → 0x5000 ≤ p
    → p + length text ≤ 0x6000
    → Written memory p text
    → Written m p text
Written-kept m p [] same lo hi w = tt
Written-kept m p (c ∷ text) same lo hi w = (
  same p lo (omega arith) ∙ w.0,
  Written-kept m (p + 1) text same (omega arith) (omega arith) w.1,
)

words_kept :
    (m : Memory) (some_words : List (List ℕ))
    → ((a : ℕ) → 0x5000 ≤ a → a < 0x6000 → m a ≡ memory a)
    → All (λ word. literal word + length word ≤ 0x6000) some_words
    → All (λ word. Written memory (literal word) word) some_words
    → All (λ word. Written m (literal word) word) some_words
words_kept m [] same hi w = tt
words_kept m (word ∷ rest) same hi w = (
  Written-kept m (literal word) word same (omega arith) hi.0 w.0,
  words_kept m rest same hi.1 w.1,
)

words_low : All (λ word. literal word + length word ≤ 0x6000) words
words_low = (
  omega arith,
  (
    omega arith,
    (
      omega arith,
      (
        omega arith,
        (
          omega arith,
          (omega arith, (omega arith, (omega arith, (omega arith, (omega arith, tt))))),
        ),
      ),
    ),
  ),
)

seven_reads : (m : Memory) → m 0x400d ≡ 55 → m 0x400e ≡ 0 → atoi 100 m 0x400d ≡ done 7
unfolding value
seven_reads m at7 end =
    let first : (j : ℕ) → j < 1 → is_digit (m (0x400d + j)) ≡ true =
      λ j lt. let e : 0x400d + j ≡ 0x400d = omega arith in rw (e, at7) refl in
    let number : value m 0x400d 1 ≡ 7 = omega (arith, at7) in
    atoi-value 100 m 0x400d 1 (omega arith) first (rw end refl) (omega (arith, number))
    ∙ ap (λ (n : ℕ). done n) number

-- What the line of these keys says to the terminal.
mount_line :
    (k : Keyboard)
    → IsLine 0x4000 (edit_all (record { newest = []; upper = false }) mount_keys) k
    → Keeps frame_buffer 0x4000 14 console.keyboard k
    → (command_of literal k.screen.mem 0x4000 ≡ drives_mount)
      × (atoi 100 k.screen.mem 0x400d ≡ done 7)
unfolding Typed edit_all edit letter
mount_line k l keeps =
    let m = k.screen.mem in
    let (
      seven,
      (s12, (s11, (s10, (s9, (s8, (s7, (s6, (s5, (s4, (s3, (s2, (s1, (s0, _))))))))))))),
    ) =
      l.text in
    let end : m 0x400e ≡ 0 = keeps 0x400e (inl (omega arith)) (inr (omega arith)) in
    (
      command_of-spelling literal m 0x4000 drives_mount
          (words_kept m words (λ a lo hi. keeps a (inl (omega arith)) (inr (omega arith))) words_low
            words_stand)
          (λ e. cc) (s0, (s1, (s2, (s3, (s4, (s5, (s6, (s7, (s8, (s9, (s10, (s11, tt)))))))))))),
      seven_reads m seven end,
    )

-- `drives mount 7`, and Enter.
line-mounts_example :
    (c' : Console) × (handle_all frame_buffer font
        (execute_prompt frame_buffer font services literal 0x3000 100)
        console
        (mount_keys ++ 0x1c ∷ [])
      ≡ done c')
    × IsReady 0x4000 c'
    × (c'.mounted_drive_port ≡ 7)
line-mounts_example =
    line-mounts frame_buffer font services literal 0x3000 100 14 console mount_keys 7 (omega arith)
      (λ j le. inl (omega arith)) (λ j lt. inl (omega arith)) (omega arith)
      (record { is_on = refl; place = refl; empty = refl; white = refl; same_prompt = refl })
      (omega arith) mount_editing (omega arith) mount_line
  where
    mount_editing : All IsEditing mount_keys
    mount_editing = (
      key 0x20 refl,
      (
        key 0x13 refl,
        (
          key 0x17 refl,
          (
            key 0x2f refl,
            (
              key 0x12 refl,
              (
                key 0x1f refl,
                (
                  key 0x39 refl,
                  (
                    key 0x32 refl,
                    (
                      key 0x18 refl,
                      (
                        key 0x16 refl,
                        (key 0x31 refl, (key 0x14 refl, (key 0x39 refl, (key 0x08 refl, tt)))),
                      ),
                    ),
                  ),
                ),
              ),
            ),
          ),
        ),
      ),
    )
