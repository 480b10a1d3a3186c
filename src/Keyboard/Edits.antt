-- ===== src/Keyboard/Edits.antt =====
-- Every key but Enter edits the line, whatever comes in between.
use mad_os.Console.{Keyboard, Console}
use mad_os.Keyboard.{
  ascii_table, type_letter, translate_scancode, put_spaces, receive_input, handle_keyboard,
  handle_all,
}
use mad_os.Keyboard.Line.{
  Line, letter, Typed, edit, edit_all, IsLine, Keeps, same_line, put_spaces_frame,
  type_letter-IsLine, backspace-IsLine, drop_newest, get_elem?-get_or,
}
use mad_os.Base.{
  ℕ, suc, ◌+◌, ◌^◌, ◌≤◌, ◌<◌, ◌≡◌, ◌≢◌, inl, inr, refl, ◌∙◌, List, [], ◌∷◌, Bool, true, false, ◌==◌,
  ltb, length, Bool-cases, arith, All,
}
use mad_os.Base.Run.{Run, done, ◌>>=◌}
use mad_os.Renderer.{FrameBuffer, Font}
use mad_os.Renderer.Reach.{FarFrom}

drop_newest-length : (newest : List ℕ) → length (drop_newest newest) ≤ length newest
drop_newest-length [] = omega arith
drop_newest-length (c ∷ cs) = omega arith

-- A key that edits the line: not Enter, nor Caps Lock, whose code 58 is the first behind the table.
pub record IsEditing (scancode : ℕ) : Type 0 where
  pub not_enter : scancode ≢ 0x1c
  pub not_caps_lock : scancode ≢ 58

module _ (fb : FrameBuffer) (font : Font) (start size : ℕ)
    (far : (j : ℕ) → j < size → FarFrom fb (start + j)) (small : size < 2 ^ 32)
    (enter : Console → Run Console) where
  -- What a step of the keyboard comes to.
  Translates : Line → Keyboard → Run Keyboard → Type 0
  Translates line k run =
      (k' : Keyboard) × (run ≡ done k') × IsLine start line k' × Keeps fb start size k k'

  -- What a step of the console comes to: only its keyboard changes.
  abbrev pub Steps : Line → Console → Run Console → Type 0
  Steps line c run =
      (k' : Keyboard) × (run ≡ done (record c { keyboard = k' }))
      × IsLine start line k'
      × Keeps fb start size c.keyboard k'

  settles :
      (line : Line) (c : Console) (k : Keyboard) (run : Run Keyboard)
      → Keeps fb start size c.keyboard k
      → Translates line k run
      → Steps line c (run >>= λ k'. done (record c { keyboard = k' }))
  unfolding Translates
  settles line c k run keeps (k', runs, l, keeps') =
      (k', rw runs refl, l, λ a o out. keeps' a o out ∙ keeps a o out)

  translates :
      (line : Line) (k : Keyboard) (scancode : ℕ)
      → scancode < 58
      → length line.newest < size
      → IsLine start line k
      → Translates
          (record line { newest = letter line.upper scancode ∷ line.newest })
          k
          (translate_scancode fb font k scancode)
  unfolding Translates translate_scancode letter
  translates line k scancode lt bound l =
      let c = letter line.upper scancode in
      let inside : ltb 58 scancode ≡ false = ground arith in
      let (line', keeps) = type_letter-IsLine fb font start size far line k c bound small l in
      (
        type_letter fb font k c,
        rw (inside, get_elem?-get_or ascii_table scancode lt, l.upper) refl,
        line',
        keeps,
      )

  silent :
      (line : Line) (k : Keyboard) (scancode : ℕ)
      → ltb 58 scancode ≡ true
      → IsLine start line k
      → Translates line k (translate_scancode fb font k scancode)
  unfolding Translates translate_scancode
  silent line k scancode beyond l = (k, rw beyond refl, l, λ a o out. refl)

  awake :
      (line : Line) (k : Keyboard)
      → IsLine start line k
      → IsLine start line (record k { is_enabled = true })
  awake line k l = record {
    enabled = refl;
    upper = l.upper;
    place = l.place;
    count = l.count;
    text = l.text;
    cursor = l.cursor;
  }

  shifted :
      (line : Line) (c : Console) (u : Bool)
      → IsLine start line c.keyboard
      → Steps
          (record line { upper = u })
          c
          (done (record c { keyboard = record c.keyboard { is_enabled = true; upper_case = u } }))
  shifted line c u l = (
    _,
    refl,
    record {
      enabled = refl;
      upper = refl;
      place = l.place;
      count = l.count;
      text = l.text;
      cursor = l.cursor;
    },
    λ a o out. refl,
  )

  pub handle_keyboard-edit :
      (line : Line) (c : Console) (scancode : ℕ)
      → IsEditing scancode
      → length line.newest < size
      → IsLine start line c.keyboard
      → Steps (edit line scancode) c (handle_keyboard fb font enter c scancode)
  unfolding handle_keyboard edit
  handle_keyboard-edit line c scancode editing bound l =
      let k = c.keyboard in
      let on : Keyboard = record k { is_enabled = true } in
      let spaces = put_spaces_frame fb font start size far 4 k.screen l.cursor in
      rw l.enabled elim (Bool-cases (scancode == 0xaa)) [
        | inl e1 ↦ rw e1 (shifted line c false l)
        | inr n1 ↦ elim (Bool-cases (scancode == 0x2a)) [
          | inl e2 ↦ rw (n1, e2) (shifted line c true l)
          | inr n2 ↦ elim (Bool-cases (scancode == 0xf)) [
            | inl e3 ↦
                rw (n1, n2, e3)
                  (
                    _,
                    refl,
                    same_line fb font start size far line on (put_spaces fb font 4 k.screen)
                        (omega arith) spaces.0 spaces.1 (awake line k l),
                    λ a o out. spaces.1 a o,
                  )
            | inr n3 ↦ elim (Bool-cases (scancode == 0x0e)) [
              | inl e4 ↦
                  rw (n1, n2, n3, e4)
                    (let (line', keeps) =
                        backspace-IsLine fb font start size far line.newest line.upper on
                          (omega arith) (awake line k l) in
                      (_, refl, line', keeps))
              | inr n4 ↦
                  let n5 : (scancode == 0x1c) ≡ false = ground (arith, editing.not_enter) in
                  elim (Bool-cases (ltb scancode 58)) [
                    | inl letter_key ↦
                        rw (n1, n2, n3, n4, n5, letter_key)
                          (settles _ c on _ (λ a o out. refl)
                            (translates line on scancode (ground arith) bound (awake line k l)))
                    | inr none ↦
                        let beyond : ltb 58 scancode ≡ true =
                          ground (arith, editing.not_caps_lock) in
                        rw (n1, n2, n3, n4, n5, none)
                          (settles _ c on _ (λ a o out. refl)
                            (silent line on scancode beyond (awake line k l)))
                  ]
            ]
          ]
        ]
      ]

  edit-length :
      (line : Line) (scancode : ℕ) → length (edit line scancode).newest ≤ suc (length line.newest)
  unfolding edit
  edit-length line scancode = ground (arith, drop_newest-length line.newest)

  -- The state after a sequence of keys.
  pub handle_all-edit_all :
      (scancodes : List ℕ) (line : Line) (c : Console)
      → All IsEditing scancodes
      → length line.newest + length scancodes ≤ size
      → IsLine start line c.keyboard
      → Steps (edit_all line scancodes) c (handle_all fb font enter c scancodes)
  unfolding handle_all edit_all
  handle_all-edit_all [] line c all bound l = (c.keyboard, refl, l, λ a o out. refl)
  handle_all-edit_all (scancode ∷ scancodes) line c (first, all) bound l =
      let (k1, run1, l1, keeps1) = handle_keyboard-edit line c scancode first (omega arith) l in
      let (k2, run2, l2, keeps2) =
        handle_all-edit_all scancodes (edit line scancode) (record c { keyboard = k1 }) all
          (omega (arith, edit-length line scancode)) l1 in
      (k2, rw run1 run2, l2, λ a o out. keeps2 a o out ∙ keeps1 a o out)

-- If the buffer at `start` has `size` bytes out of the renderer's reach, the keyboard is enabled, and
-- at most `size` keys are pressed or released after `ReceiveInput(start)`, Enter and Caps Lock not
-- among them, then every interrupt is handled without an access out of the table; the buffer holds,
-- from `start` on, the line that the line editor makes of the keys, `input` points behind it,
-- `inputLen` is its length, the memory outside the buffer and out of the renderer's reach is
-- unchanged, and so is the console but for the keyboard and the screen.
pub handle_all-IsLine :
    (fb : FrameBuffer) (font : Font) (enter : Console → Run Console) (start size : ℕ) (c : Console)
    (scancodes : List ℕ)
    → ((j : ℕ) → j < size → FarFrom fb (start + j))
    → size < 2 ^ 32
    → c.keyboard.is_enabled ≡ true
    → c.keyboard.screen.x < 2 ^ 32
    → All IsEditing scancodes
    → length scancodes ≤ size
    → (k' : Keyboard) × (handle_all fb font enter
          (record c { keyboard = receive_input c.keyboard start })
          scancodes
        ≡ done (record c { keyboard = k' }))
      × IsLine start (edit_all (record { newest = []; upper = c.keyboard.upper_case }) scancodes) k'
      × Keeps fb start size c.keyboard k'
unfolding Typed
handle_all-IsLine fb font enter start size c scancodes far small on cursor all bound =
    handle_all-edit_all fb font start size far small enter scancodes
      (record { newest = []; upper = c.keyboard.upper_case })
      (record c { keyboard = receive_input c.keyboard start }) all (omega arith)
      (record {
        enabled = on;
        upper = refl;
        place = omega arith;
        count = refl;
        text = tt;
        cursor = cursor;
      })
