-- ===== src/Terminal/Dispatch.antt =====
-- Which command a line selects.
use mad_os.Terminal.{
  Command, no_command, memory_info, drives_list, drives_mount, drives_format, drives_size, fs_list,
  fs_open, fs_write, command_of,
}
use mad_os.Base.{
  ℕ, zero, suc, ◌+◌, ◌<◌, ◌≡◌, ◌≢◌, refl, sym, ◌∙◌, List, [], ◌∷◌, ◌++◌, true, false, codes, get_or,
  length, All, Bool-cases, inl, inr, arith,
}
use mad_os.Memory.{Memory}
use mad_os.Strings.{strcmp}
use mad_os.Strings.Compare.{strcmp-Agree}

-- The bytes of a text stand in memory from `p` on.
abbrev pub Written : Memory → (p : ℕ) → List ℕ → Type 0
Written m p [] = Unit
Written m p (c ∷ text) = (m p ≡ c) × Written m (p + 1) text

-- The words that `ExecutePrompt` compares with.
abbrev pub words : List (List ℕ)
words =
    codes "memory"
    ∷ codes "info"
    ∷ codes "drives"
    ∷ codes "list"
    ∷ codes "mount"
    ∷ codes "format"
    ∷ codes "size"
    ∷ codes "fs"
    ∷ codes "open"
    ∷ codes "write"
    ∷ []

-- How a command is spelled.
abbrev pub spelling : Command → List ℕ
spelling no_command = []
spelling memory_info = codes "memory info"
spelling drives_list = codes "drives list"
spelling drives_mount = codes "drives mount"
spelling drives_format = codes "drives format"
spelling drives_size = codes "drives size"
spelling fs_list = codes "fs list"
spelling fs_open = codes "fs open"
spelling fs_write = codes "fs write"

Written-byte :
    (text : List ℕ) (m : Memory) (p j : ℕ)
    → Written m p text
    → j < length text
    → m (p + j) ≡ get_or text j 0
Written-byte [] m p j written h = absurd (omega arith)
Written-byte (c ∷ text) m p zero (here, written) h = let e : p + 0 ≡ p = omega arith in rw e here
Written-byte (c ∷ text) m p (suc j) (here, written) h =
    let e : p + suc j ≡ p + 1 + j = omega arith in
    rw e (Written-byte text m (p + 1) j written (omega arith))

Written-append :
    (xs ys : List ℕ) (m : Memory) (p : ℕ)
    → Written m p (xs ++ ys)
    → Written m p xs × Written m (p + length xs) ys
Written-append [] ys m p written = let e : p + 0 ≡ p = omega arith in (tt, rw e written)
Written-append (x ∷ xs) ys m p (here, written) =
    let (left, right) = Written-append xs ys m (p + 1) written in
    let e : p + suc (length xs) ≡ p + 1 + length xs = omega arith in ((here, left), rw e right)

strcmp_same :
    (text : List ℕ) (m : Memory) (p q : ℕ)
    → Written m p text
    → Written m q text
    → strcmp m p q (length text) ≡ true
strcmp_same text m p q at_p at_q = (strcmp-Agree m p q (length text)).1 (λ j lo hi.
    Written-byte text m p j at_p (omega arith) ∙ sym (Written-byte text m q j at_q (omega arith)))

strcmp_differs : (m : Memory) (p q n : ℕ) → 0 < n → m p ≢ m q → strcmp m p q n ≡ false
strcmp_differs m p q n pos ne = elim (Bool-cases (strcmp m p q n)) [
  | inr differs ↦ differs
  | inl agrees ↦
      let e : p + 0 ≡ p = omega arith in
      let e' : q + 0 ≡ q = omega arith in
      absurd (ne (rw (e, e') at ((strcmp-Agree m p q n).0 agrees 0 (omega arith) (omega arith))))
]

-- The two words of a line.
two_words :
    (first second : List ℕ) (m : Memory) (p : ℕ)
    → Written m p (first ++ b' ' ∷ second)
    → Written m (p + 0) first × Written m (p + suc (length first)) second
two_words first second m p written =
    let (left, right) = Written-append first (b' ' ∷ second) m p written in
    let e : p + 0 ≡ p = omega arith in
    let e' : p + suc (length first) ≡ p + length first + 1 = omega arith in
    (rw e left, rw e' right.1)

-- If the words of `ExecutePrompt` stand where its literals are, a line that starts with the spelling of
-- a command selects that command, whatever follows the spelling.
pub command_of-spelling :
    (literal : List ℕ → ℕ) (m : Memory) (p : ℕ) (c : Command)
    → All (λ word. Written m (literal word) word) words
    → c ≢ no_command
    → Written m p (spelling c)
    → command_of literal m p ≡ c
unfolding command_of
command_of-spelling literal m p c
      (memory, (info, (drives, (list, (mount, (format, (size, (fs, (open_, (write, _)))))))))) =
    choose c
  where
    same :
        (word : List ℕ) (at_ : ℕ)
        → Written m (literal word) word
        → Written m (p + at_) word
        → strcmp m (p + at_) (literal word) (length word) ≡ true
    same word at_ stands there = strcmp_same word m (p + at_) (literal word) there stands

    other :
        (word : List ℕ) (at_ n x y : ℕ)
        → 0 < n
        → m (literal word) ≡ y
        → m (p + at_) ≡ x
        → x ≢ y
        → strcmp m (p + at_) (literal word) n ≡ false
    other word at_ n x y pos ey ex ne =
        strcmp_differs m (p + at_) (literal word) n pos (λ e. ne (sym ex ∙ e ∙ ey))

    choose : (c : Command) → c ≢ no_command → Written m p (spelling c) → command_of literal m p ≡ c
    choose no_command some written = absurd (some refl)
    choose memory_info some written =
        let (one, two) = two_words (codes "memory") (codes "info") m p written in
        rw (same (codes "memory") 0 memory one, same (codes "info") 7 info two) refl
    choose drives_list some written =
        let (one, two) = two_words (codes "drives") (codes "list") m p written in
        rw
          (
            other (codes "memory") 0 6 _ _ (omega arith) memory.0 one.0 (omega arith),
            same (codes "drives") 0 drives one,
            same (codes "list") 7 list two,
          )
          refl
    choose drives_mount some written =
        let (one, two) = two_words (codes "drives") (codes "mount") m p written in
        rw
          (
            other (codes "memory") 0 6 _ _ (omega arith) memory.0 one.0 (omega arith),
            same (codes "drives") 0 drives one,
            other (codes "list") 7 4 _ _ (omega arith) list.0 two.0 (omega arith),
            same (codes "mount") 7 mount two,
          )
          refl
    choose drives_format some written =
        let (one, two) = two_words (codes "drives") (codes "format") m p written in
        rw
          (
            other (codes "memory") 0 6 _ _ (omega arith) memory.0 one.0 (omega arith),
            same (codes "drives") 0 drives one,
            other (codes "list") 7 4 _ _ (omega arith) list.0 two.0 (omega arith),
            other (codes "mount") 7 5 _ _ (omega arith) mount.0 two.0 (omega arith),
            same (codes "format") 7 format two,
          )
          refl
    choose drives_size some written =
        let (one, two) = two_words (codes "drives") (codes "size") m p written in
        rw
          (
            other (codes "memory") 0 6 _ _ (omega arith) memory.0 one.0 (omega arith),
            same (codes "drives") 0 drives one,
            other (codes "list") 7 4 _ _ (omega arith) list.0 two.0 (omega arith),
            other (codes "mount") 7 5 _ _ (omega arith) mount.0 two.0 (omega arith),
            other (codes "format") 7 6 _ _ (omega arith) format.0 two.0 (omega arith),
            same (codes "size") 7 size two,
          )
          refl
    choose fs_list some written =
        let (one, two) = two_words (codes "fs") (codes "list") m p written in
        rw
          (
            other (codes "memory") 0 6 _ _ (omega arith) memory.0 one.0 (omega arith),
            other (codes "drives") 0 6 _ _ (omega arith) drives.0 one.0 (omega arith),
            same (codes "fs") 0 fs one,
            same (codes "list") 3 list two,
          )
          refl
    choose fs_open some written =
        let (one, two) = two_words (codes "fs") (codes "open") m p written in
        rw
          (
            other (codes "memory") 0 6 _ _ (omega arith) memory.0 one.0 (omega arith),
            other (codes "drives") 0 6 _ _ (omega arith) drives.0 one.0 (omega arith),
            same (codes "fs") 0 fs one,
            other (codes "list") 3 4 _ _ (omega arith) list.0 two.0 (omega arith),
            same (codes "open") 3 open_ two,
          )
          refl
    choose fs_write some written =
        let (one, two) = two_words (codes "fs") (codes "write") m p written in
        rw
          (
            other (codes "memory") 0 6 _ _ (omega arith) memory.0 one.0 (omega arith),
            other (codes "drives") 0 6 _ _ (omega arith) drives.0 one.0 (omega arith),
            same (codes "fs") 0 fs one,
            other (codes "list") 3 4 _ _ (omega arith) list.0 two.0 (omega arith),
            other (codes "open") 3 4 _ _ (omega arith) open_.0 two.0 (omega arith),
            same (codes "write") 3 write two,
          )
          refl
