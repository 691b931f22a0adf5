-- ===== src/Codeedit.antt =====
-- internal/codeedit: the text editor's cursor arithmetic. Package unicode's tests of a rune are
-- parameters; a row past the text, which Go does not allow, gives no position.
pub mod Words
pub mod Indent
use app_listener.Base.{
  ℕ, zero, suc, ◌+◌, ◌-◌, ◌%◌, ◌≡◌, Bool, true, false, not, ◌&&◌, ◌||◌, Option, none, some, List,
  [], ◌∷◌, ◌==◌, nat_eq, if◌then◌else◌, ltb, leb, length, get_elem?, take, drop, min,
}

-- `len(indent)`
abbrev pub indent_width : ℕ
indent_width = 4

abbrev pub space : ℕ
space = 32

-- `onlySpaces`
abbrev pub only_spaces : List ℕ → Bool
only_spaces [] = true
only_spaces (r ∷ rs) = (r == space) && only_spaces rs

-- `softTabBack`
unfoldable pub soft_tab_back : List ℕ → ℕ → ℕ
soft_tab_back line col =
    if (col == 0) || (ltb (length line) col || not (only_spaces (take col line)))
    then 0
    else if not (col % indent_width == 0)
    then col % indent_width
    else indent_width

-- `softTabForward`
unfoldable pub soft_tab_forward : List ℕ → ℕ → ℕ
soft_tab_forward line col =
    let n = indent_width - col % indent_width in
    if ltb (length line) col
      || (ltb (length line) (col + n) || not (only_spaces (take (col + n) line)))
    then 0
    else n

-- `leadingIndent`: spaces and tabs, up to the cursor.
unfoldable pub leading_indent : List ℕ → ℕ → List ℕ
leading_indent [] col = []
leading_indent (r ∷ line) zero = []
leading_indent (r ∷ line) (suc col) =
    let rest = leading_indent line col in if (r == space) || (r == 9) then r ∷ rest else []

-- `class`
pub data Class : Type 0 where
  class_space class_word class_punct : Class

abbrev pub class_beq : Class → Class → Bool
class_beq class_space class_space = true
class_beq class_word class_word = true
class_beq class_punct class_punct = true
class_beq _ _ = false

-- Package unicode: `IsSpace`, `IsLetter` and `IsDigit`.
pub record Unicode : Type 0 where
  pub is_space : ℕ → Bool
  pub is_letter : ℕ → Bool
  pub is_digit : ℕ → Bool

-- `classOf`
abbrev pub class_of : Unicode → ℕ → Class
class_of u r =
    if u.is_space r
    then class_space
    else if (r == 95) || (u.is_letter r || u.is_digit r)
    then class_word
    else class_punct

-- A loop that steps right over runes of class `c`: how far it goes.
abbrev pub run_right : Unicode → Class → List ℕ → ℕ
run_right u c [] = 0
run_right u c (r ∷ rs) = let n = run_right u c rs in if class_beq (class_of u r) c then suc n else 0

-- The second loop of `wordRight`: the run that the next rune begins.
abbrev pub next_run : Unicode → List ℕ → ℕ
next_run u [] = 0
next_run u (r ∷ rs) = run_right u (class_of u r) (r ∷ rs)

abbrev pub right_in : Unicode → List ℕ → ℕ → ℕ
right_in u line col =
    let start = col + run_right u class_space (drop col line) in
    start + next_run u (drop start line)

-- `wordRight`
unfoldable pub word_right : Unicode → List (List ℕ) → ℕ → ℕ → Option (ℕ × ℕ)
word_right u text row col = elim (get_elem? text row) [
  | none ↦ none
  | some line ↦
      if leb (length line) col
      then some (if ltb (row + 1) (length text) then (row + 1, 0) else (row, length line))
      else some (row, right_in u line col)
]

-- A loop that steps left from `col` over runes of class `c`: where it stops.
abbrev pub run_left : Unicode → Class → List ℕ → ℕ → ℕ
run_left u c line zero = 0
run_left u c line (suc col) =
    let next = run_left u c line col in
    elim (get_elem? line col) [
      | none ↦ suc col
      | some r ↦ if class_beq (class_of u r) c then next else suc col
    ]

-- The second loop of `wordLeft`: the run that ends before `col`.
abbrev pub last_run : Unicode → List ℕ → ℕ → ℕ
last_run u line zero = 0
last_run u line (suc col) = elim (get_elem? line col) [
  | none ↦ suc col
  | some r ↦ run_left u (class_of u r) line (suc col)
]

abbrev pub left_in : Unicode → List ℕ → ℕ → ℕ
left_in u line col = last_run u line (run_left u class_space line col)

-- The start of a line, and the end of the one before.
abbrev pub line_start : List (List ℕ) → ℕ → Option (ℕ × ℕ)
line_start text zero = some (0, 0)
line_start text (suc row) = elim (get_elem? text row) [
  | none ↦ none
  | some line ↦ some (row, length line)
]

-- `wordLeft`
unfoldable pub word_left : Unicode → List (List ℕ) → ℕ → ℕ → Option (ℕ × ℕ)
word_left u text row col = elim (get_elem? text row) [
  | none ↦ none
  | some line ↦
      if min col (length line) == 0
      then line_start text row
      else some (row, left_in u line (min col (length line)))
]

-- `pos` of selection.go
pub record Pos : Type 0 where
  pub line : ℕ
  pub col : ℕ

-- `before`
abbrev pub before : Pos → Pos → Bool
before a b = ltb a.line b.line || ((a.line == b.line) && ltb a.col b.col)

-- `offset`, over the lines up to the position's.
unfoldable pub offset : List (List ℕ) → Pos → Option ℕ
offset [] p = none
offset (l ∷ text) p = elim p.line [
  | zero ↦ some (min p.col (length l))
  | suc n ↦ elim (offset text (record p { line = n })) [
    | none ↦ none
    | some o ↦ some (length l + 1 + o)
  ]
]

-- `bounds`: the ends of an active selection in text order, and that it is not empty.
unfoldable pub bounds : Bool → Pos → Pos → Option (Pos × Pos)
bounds false anchor cursor = none
bounds true anchor cursor =
    if before cursor anchor
    then some (cursor, anchor)
    else if before anchor cursor
    then some (anchor, cursor)
    else none
