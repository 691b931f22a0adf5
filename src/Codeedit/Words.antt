-- ===== src/Codeedit/Words.antt =====
-- internal/codeedit/codeedit.go, `wordRight` and `wordLeft`: where they land.
use app_listener.Base.{
  ℕ, zero, suc, ◌≢◌, ◌+◌, ◌-◌, ◌≤◌, ◌<◌, ◌≡◌, refl, true, false, Option, none, some, List, [], ◌∷◌,
  if◌then◌else◌, leb, length, get_elem?, drop, min, arith, ◌==◌, nat_eq,
}
use app_listener.Codeedit.{
  Unicode, Class, class_space, class_word, class_punct, class_of, class_beq, run_right, next_run,
  right_in, word_right, run_left, last_run, left_in, word_left,
}

length-drop : (n : ℕ) (xs : List ℕ) → length (drop n xs) ≡ length xs - n
length-drop zero xs = ground arith
length-drop (suc n) [] = ground arith
length-drop (suc n) (x ∷ xs) = ground (arith, length-drop n xs)

get_elem?-some : (xs : List ℕ) (n : ℕ) → suc n ≤ length xs → get_elem? xs n ≢ none
get_elem?-some [] n h e = ground arith
get_elem?-some (x ∷ xs) zero h e = ground arith
get_elem?-some (x ∷ xs) (suc n) h e = get_elem?-some xs n (ground arith) e

class_beq_refl : (c : Class) → class_beq c c ≡ true
class_beq_refl class_space = refl
class_beq_refl class_word = refl
class_beq_refl class_punct = refl

run_right-le : (u : Unicode) (c : Class) (rs : List ℕ) → run_right u c rs ≤ length rs
run_right-le u c [] = ground arith
run_right-le u c (r ∷ rs) = ground (arith, run_right-le u c rs)

next_run-some :
    (u : Unicode) (rs : List ℕ) → 0 < length rs → (0 < next_run u rs) × (next_run u rs ≤ length rs)
next_run-some u [] h = ground arith
next_run-some u (r ∷ rs) h =
    ground (arith, run_right-le u (class_of u r) rs, class_beq_refl (class_of u r))

next_run-le : (u : Unicode) (rs : List ℕ) → next_run u rs ≤ length rs
next_run-le u [] = ground arith
next_run-le u (r ∷ rs) = run_right-le u (class_of u r) (r ∷ rs)

right_in-bounds :
    (u : Unicode) (line : List ℕ) (col : ℕ)
    → col < length line
    → (col < right_in u line col) × (right_in u line col ≤ length line)
right_in-bounds u line col h =
    let start : ℕ = col + run_right u class_space (drop col line) in
    grind (
      arith,
      run_right-le u class_space (drop col line),
      length-drop col line,
      length-drop start line,
      next_run-le u (drop start line),
      next_run-some u (drop start line),
    )

run_left-le : (u : Unicode) (c : Class) (line : List ℕ) (col : ℕ) → run_left u c line col ≤ col
run_left-le u c line zero = ground arith
run_left-le u c line (suc col) = go (get_elem? line col) (run_left-le u c line col)
  where
    go :
        (o : Option ℕ)
        → run_left u c line col ≤ col
        → (elim o [
          | none ↦ suc col
          | some r ↦ if class_beq (class_of u r) c then run_left u c line col else suc col
        ])
          ≤ suc col
    go none h = ground arith
    go (some r) h = ground arith

-- The run before `col`, if the rune there is in the line, takes at least one step.
last_run-lt :
    (u : Unicode) (line : List ℕ) (col : ℕ)
    → suc col ≤ length line
    → last_run u line (suc col) < suc col
last_run-lt u line col h = go (get_elem? line col) refl
  where
    go :
        (o : Option ℕ)
        → get_elem? line col ≡ o
        → (elim o [ none ↦ suc col | some r ↦ run_left u (class_of u r) line (suc col) ]) < suc col
    go none e = absurd (get_elem?-some line col h e)
    go (some r) e =
        rw (run_left, e, class_beq_refl (class_of u r))
          (ground (arith, run_left-le u (class_of u r) line col))

left_in-lt :
    (u : Unicode) (line : List ℕ) (col : ℕ) → 0 < col → col ≤ length line → left_in u line col < col
left_in-lt u line col h k =
    go (run_left u class_space line col) (run_left-le u class_space line col)
  where
    go : (c : ℕ) → c ≤ col → last_run u line c < col
    go zero e = h
    go (suc c) e = ground (arith, last_run-lt u line c)

-- Inside a line, `wordRight` stays in the line and moves right, at most to its end.
pub word_right-bounds :
    (u : Unicode) (text : List (List ℕ)) (row col : ℕ) (line : List ℕ)
    → get_elem? text row ≡ some line
    → col < length line
    → (word_right u text row col ≡ some (row, right_in u line col))
      × (col < right_in u line col)
      × (right_in u line col ≤ length line)
unfolding word_right
word_right-bounds u text row col line e h =
    let inside : leb (length line) col ≡ false = ground arith in
    let (more, most) = right_in-bounds u line col h in (rw (word_right, e, inside) refl, more, most)

-- Past a line's start, `wordLeft` stays in the line and moves left of the cursor, which it first brings
-- into the line.
pub word_left-bounds :
    (u : Unicode) (text : List (List ℕ)) (row col : ℕ) (line : List ℕ)
    → get_elem? text row ≡ some line
    → 0 < col
    → 0 < length line
    → (word_left u text row col ≡ some (row, left_in u line (min col (length line))))
      × (left_in u line (min col (length line)) < min col (length line))
unfolding word_left
word_left-bounds u text row col line e h k =
    let inside : (min col (length line) == 0) ≡ false = ground arith in
    (
      rw (word_left, e, inside) refl,
      left_in-lt u line (min col (length line)) (ground arith) (ground arith),
    )
