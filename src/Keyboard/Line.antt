-- ===== src/Keyboard/Line.antt =====
-- What is typed up to Enter, against a line editor.
use mad_os.Keyboard.{ascii_table, type_letter, put_spaces, backspace}
use mad_os.Base.{
  ℕ, zero, suc, ◌+◌, ◌-◌, ◌^◌, ◌≤◌, ◌<◌, ◌≡◌, ◌≢◌, ◌⊎◌, inl, inr, refl, ◌∙◌, List, [], ◌∷◌, some,
  Bool, true, false, ◌==◌, ltb, if◌then◌else◌, u8, get_elem?, get_or, length, arith,
}
use mad_os.Console.{Keyboard}
use mad_os.Memory.{Memory, store8}
use mad_os.Memory.Laws.{store8_self, store8_other}
use mad_os.Renderer.{FrameBuffer, Font, Screen, put_char, remove_char}
use mad_os.Renderer.Reach.{FarFrom, put_char_frame, put_char-x, remove_char_frame, remove_char-x}

-- The letters of a line, the newest first, and whether the left Shift key is down.
pub record Line : Type 0 where
  pub newest : List ℕ
  pub upper : Bool

unfoldable pub letter : (upper : Bool) (scancode : ℕ) → ℕ
letter upper scancode =
    let c = get_or ascii_table scancode 0 in if upper then u8 (c + 2 ^ 8 - 32) else c

abbrev pub drop_newest : List ℕ → List ℕ
drop_newest [] = []
drop_newest (c ∷ cs) = cs

-- The line editor: what a key other than Enter does to a line.
unfoldable pub edit : Line → (scancode : ℕ) → Line
unfolding letter
edit line scancode =
    if scancode == 0xaa
    then record line { upper = false }
    else if scancode == 0x2a
    then record line { upper = true }
    else if scancode == 0xf
    then line
    else if scancode == 0x0e
    then record line { newest = drop_newest line.newest }
    else if ltb scancode 58
    then record line { newest = letter line.upper scancode ∷ line.newest }
    else line

unfoldable pub edit_all : Line → List ℕ → Line
edit_all line [] = line
edit_all line (scancode ∷ scancodes) = edit_all (edit line scancode) scancodes

-- The letters stand in memory from `start` on.
unfoldable pub Typed : (start : ℕ) → Memory → (newest : List ℕ) → Type 0
Typed start m [] = Unit
Typed start m (c ∷ rest) = (m (start + length rest) ≡ c) × Typed start m rest

-- The keyboard holds the line, in the buffer at `start`.
pub record IsLine (start : ℕ) (line : Line) (k : Keyboard) : Type 0 where
  pub enabled : k.is_enabled ≡ true
  pub upper : k.upper_case ≡ line.upper
  pub place : k.input ≡ start + length line.newest
  pub count : k.input_len ≡ length line.newest
  pub text : Typed start k.screen.mem line.newest
  pub cursor : k.screen.x < 2 ^ 32

-- The memory outside the buffer, out of the renderer's reach, is that of `k`.
abbrev pub Keeps : FrameBuffer → (start size : ℕ) → (k k' : Keyboard) → Type 0
Keeps fb start size k k' =
    (a : ℕ) → FarFrom fb a → (a < start) ⊎ (start + size ≤ a) → k'.screen.mem a ≡ k.screen.mem a

Typed-same :
    (start : ℕ) (m m' : Memory) (xs : List ℕ)
    → ((j : ℕ) → j < length xs → m' (start + j) ≡ m (start + j))
    → Typed start m xs
    → Typed start m' xs
unfolding Typed
Typed-same start m m' [] same typed = typed
Typed-same start m m' (c ∷ rest) same (here, typed) = (
  same (length rest) (omega arith) ∙ here,
  Typed-same start m m' rest (λ j lt. same j (omega arith)) typed,
)

pub get_elem?-get_or : (xs : List ℕ) (i : ℕ) → i < length xs → get_elem? xs i ≡ some (get_or xs i 0)
get_elem?-get_or [] i h = absurd (omega arith)
get_elem?-get_or (x ∷ xs) zero h = refl
get_elem?-get_or (x ∷ xs) (suc i) h = get_elem?-get_or xs i (omega arith)

elsewhere :
    (start size a : ℕ) (newest : List ℕ)
    → length newest < size
    → (a < start) ⊎ (start + size ≤ a)
    → a ≢ start + length newest
elsewhere start size a newest bound (inl h) e = omega arith
elsewhere start size a newest bound (inr h) e = omega arith

module _ (fb : FrameBuffer) (font : Font) (start size : ℕ)
    (far : (j : ℕ) → j < size → FarFrom fb (start + j)) where
  -- A step that leaves the buffer as it is.
  pub same_line :
      (line : Line) (k : Keyboard) (s : Screen)
      → length line.newest ≤ size
      → s.x < 2 ^ 32
      → ((a : ℕ) → FarFrom fb a → s.mem a ≡ k.screen.mem a)
      → IsLine start line k
      → IsLine start line (record k { screen = s })
  same_line line k s bound x same l = record {
    enabled = l.enabled;
    upper = l.upper;
    place = l.place;
    count = l.count;
    text =
        Typed-same start k.screen.mem s.mem line.newest
          (λ j lt. same (start + j) (far j (omega arith))) l.text;
    cursor = x;
  }

  pub put_spaces_frame :
      (n : ℕ) (s : Screen)
      → s.x < 2 ^ 32
      → ((put_spaces fb font n s).x < 2 ^ 32)
        × ((a : ℕ) → FarFrom fb a → (put_spaces fb font n s).mem a ≡ s.mem a)
  unfolding put_spaces
  put_spaces_frame zero s h = (h, λ a o. refl)
  put_spaces_frame (suc n) s h =
      let (x, same) = put_spaces_frame n (put_char fb font s b' ') (put_char-x fb font s b' ') in
      (x, λ a o. same a o ∙ put_char_frame fb a o font s b' ' h)

  pub type_letter-IsLine :
      (line : Line) (k : Keyboard) (c : ℕ)
      → length line.newest < size
      → size < 2 ^ 32
      → IsLine start line k
      → IsLine start (record line { newest = c ∷ line.newest }) (type_letter fb font k c)
        × Keeps fb start size k (type_letter fb font k c)
  unfolding type_letter Typed
  type_letter-IsLine line k c bound small l =
      let drawn = (put_char fb font k.screen c).mem in
      let keeps : (a : ℕ) → FarFrom fb a → drawn a ≡ k.screen.mem a =
        λ a o. put_char_frame fb a o font k.screen c l.cursor in
      (
        record {
          enabled = l.enabled;
          upper = l.upper;
          place = omega (arith, l.place);
          count = omega (arith, l.count);
          text = (
            rw l.place (store8_self drawn (start + length line.newest) c),
            Typed-same start k.screen.mem (store8 drawn k.input c) line.newest
                (λ j lt.
                  store8_other drawn k.input c (start + j) (λ e. omega (arith, l.place))
                  ∙ keeps (start + j) (far j (omega arith)))
                l.text,
          );
          cursor = put_char-x fb font k.screen c;
        },
        (λ a o out.
            store8_other drawn k.input c a
              (λ e. elsewhere start size a line.newest bound out (e ∙ l.place))
            ∙ keeps a o),
      )

  pub backspace-IsLine :
      (newest : List ℕ) (u : Bool) (k : Keyboard)
      → length newest ≤ size
      → IsLine start (record { newest = newest; upper = u }) k
      → IsLine start (record { newest = drop_newest newest; upper = u }) (backspace fb k)
        × Keeps fb start size k (backspace fb k)
  unfolding backspace Typed
  backspace-IsLine [] u k bound l =
      let empty : (k.input_len == 0) ≡ true = ground (arith, l.count) in
      rw empty (
        record {
          enabled = l.enabled;
          upper = l.upper;
          place = l.place;
          count = l.count;
          text = l.text;
          cursor = l.cursor;
        },
        λ a o out. refl,
      )
  backspace-IsLine (c ∷ rest) u k bound l =
      let some_left : (k.input_len == 0) ≡ false = ground (arith, l.count) in
      let last : k.input - 1 ≡ start + length rest = omega (arith, l.place) in
      let zeroed = store8 k.screen.mem (k.input - 1) 0 in
      let erased = remove_char fb (record k.screen { mem = zeroed }) in
      let keeps : (a : ℕ) → FarFrom fb a → erased.mem a ≡ zeroed a =
        λ a o. remove_char_frame fb a o (record k.screen { mem = zeroed }) l.cursor in
      rw some_left (
        record {
          enabled = l.enabled;
          upper = l.upper;
          place = last;
          count = omega (arith, l.count);
          text =
              Typed-same start k.screen.mem erased.mem rest
                (λ j lt.
                  keeps (start + j) (far j (omega arith))
                  ∙ store8_other k.screen.mem (k.input - 1) 0 (start + j)
                      (λ e. omega (arith, last)))
                l.text.1;
          cursor = remove_char-x fb (record k.screen { mem = zeroed });
        },
        λ a o out.
            keeps a o
            ∙ store8_other k.screen.mem (k.input - 1) 0 a
                (λ e. elsewhere start size a rest (omega arith) out (e ∙ last)),
      )
