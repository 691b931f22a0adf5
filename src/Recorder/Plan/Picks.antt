-- ===== src/Recorder/Plan/Picks.antt =====
-- internal/recorder: what holds of every binary that a selection picks.
use app_listener.Base.{
  ◌≡◌, refl, ap, ◌∙◌, Bool, true, false, ◌&&◌, ◌||◌, Option, none, some, List, [], ◌∷◌, ◌++◌, ◌==◌,
  nat_eq, list_eq, if◌then◌else◌, any, all, all-append, contains, if_cases, Bytes, beq_refl, arith,
}
use app_listener.Recorder.{Binary, is_admissible}
use app_listener.Recorder.Plan.{
  is_covered, PlannedBinary, dedupe_from, dedupe, decode_hex, by_line, Chosen, full_hash, plan_hash,
  plan_binary, plan_from, plan_binaries,
}

all-dedupe_from :
    (p : Bytes → Bool) (out ss : List Bytes)
    → all p out ≡ true
    → all p ss ≡ true
    → all p (dedupe_from out ss) ≡ true
all-dedupe_from p out [] h k = h
all-dedupe_from p out (s ∷ ss) h k =
    all-dedupe_from p (if contains out s then out else out ++ s ∷ []) ss
      (if_cases (λ l. all p l ≡ true) (contains out s) out (out ++ s ∷ []) (λ old. h)
        λ new. ground (arith, all-append p out (s ∷ [])))
      (ground arith)

all_self :
    (xs ys : List Bytes)
    → ((x : Bytes) → contains ys x ≡ true → contains xs x ≡ true)
    → all (contains xs) ys ≡ true
all_self xs [] f = refl
all_self xs (y ∷ ys) f = both _ _ (f y (first y ys)) (all_self xs ys λ x h. f x (later y x ys h))
  where
    both : (a b : Bool) → a ≡ true → b ≡ true → (a && b) ≡ true
    both a b h k = ground arith

    first : (y : Bytes) (ys : List Bytes) → contains (y ∷ ys) y ≡ true
    first y ys = rw (beq_refl y) refl

    later : (y x : Bytes) (ys : List Bytes) → contains ys x ≡ true → contains (y ∷ ys) x ≡ true
    later y x ys h = ground arith

pub all-dedupe : (ss : List Bytes) → all (contains ss) (dedupe ss) ≡ true
unfolding dedupe
all-dedupe ss = all-dedupe_from (contains ss) [] ss refl (all_self ss ss λ x h. h)

-- A binary that a line stands for was recorded and is admissible.
pub by_line-recorded :
    (line : Bytes) (bs : List Binary) (b : Binary) (q : Binary → Bool)
    → by_line line bs ≡ some b
    → q b ≡ true
    → any (λ x. (is_admissible x && (x.line == line)) && q x) bs ≡ true
by_line-recorded line [] b q e h = absurd cc
by_line-recorded line (x ∷ bs) b q e h =
    from (by_line line bs) e λ e'. by_line-recorded line bs b q e' h
  where
    P : Bool → Type 0
    P rest = (((is_admissible x && (x.line == line)) && q x) || rest) ≡ true

    rest : Bool
    rest = any (λ x. (is_admissible x && (x.line == line)) && q x) bs

    here : (x ≡ b) → (is_admissible x && (x.line == line)) ≡ true → P rest
    here same good = first _ (q x) rest good (ap q same ∙ h)
      where
        first : (a b c : Bool) → a ≡ true → b ≡ true → ((a && b) || c) ≡ true
        first a b c h k = ground arith

    from :
        (o : Option Binary)
        → (elim o [
          | some later ↦ some later
          | none ↦ if is_admissible x && (x.line == line) then some x else none
        ])
          ≡ some b
        → ((o ≡ some b) → rest ≡ true)
        → P rest
    from (some later) e' ih = second _ rest (ih e')
      where
        second : (a c : Bool) → c ≡ true → (a || c) ≡ true
        second a c h = ground arith
    from none e' ih =
        if_cases (λ o. o ≡ some b → P rest) (is_admissible x && (x.line == line)) (some x) none
          (λ good e'. here (same e') good) (λ bad e'. absurd cc) e'
      where
        same : some x ≡ some b → x ≡ b
        same e = cc

pub and_left : (a b : Bool) → (a && b) ≡ true → a ≡ true
and_left a b h = ground arith

pub and_right : (a b : Bool) → (a && b) ≡ true → b ≡ true
and_right a b h = ground arith

-- What every pick satisfies, the result satisfies.
module _ (recorded : List Binary) (sel : List Bytes) (p : Bytes × Binary → Bool)
    (q : PlannedBinary → Bool)
    (picks : (line : Bytes) (b : Binary)
      → by_line line recorded ≡ some b
      → contains sel line ≡ true
      → p (line, b) ≡ true)
    (plans : (line : Bytes) (b : Binary) (sum : Bytes)
      → by_line line recorded ≡ some b
      → contains sel line ≡ true
      → is_covered b ≡ false
      → full_hash (decode_hex b.sha256) ≡ some sum
      → q (record { line = line; sha256 = sum; system_placed = b.system_placed }) ≡ true) where
  abbrev Good : List PlannedBinary × Chosen → Type 0
  Good (out, chosen) = (all q out ≡ true) × (all p chosen ≡ true)

  abbrev GoodIf : Option (List PlannedBinary × Chosen) → Type 0
  GoodIf none = Unit
  GoodIf (some r) = Good r

  abbrev PickedIf : Bytes → Option (PlannedBinary × Binary) → Type 0
  PickedIf line none = Unit
  PickedIf line (some (pb, b)) = (q pb ≡ true) × (p (line, b) ≡ true)

  plan_hash-Picked :
      (line : Bytes) (b : Binary) (o : Option Bytes)
      → full_hash (decode_hex b.sha256) ≡ o
      → by_line line recorded ≡ some b
      → contains sel line ≡ true
      → is_covered b ≡ false
      → PickedIf line (plan_hash line b o)
  plan_hash-Picked line b none f e c u = tt
  plan_hash-Picked line b (some sum) f e c u = (plans line b sum e c u f, picks line b e c)

  plan_binary-Picked :
      (line : Bytes) (o : Option Binary)
      → by_line line recorded ≡ o
      → contains sel line ≡ true
      → PickedIf line (plan_binary line o)
  plan_binary-Picked line none e c = tt
  plan_binary-Picked line (some b) e c =
      if_cases (PickedIf line) (is_covered b) none _ (λ covered. tt)
        λ live. plan_hash-Picked line b (full_hash (decode_hex b.sha256)) refl e c live

  extend_Good :
      (out : List PlannedBinary) (chosen : Chosen) (pb : PlannedBinary) (c : Bytes × Binary)
      → Good (out, chosen)
      → q pb ≡ true
      → p c ≡ true
      → Good (out ++ pb ∷ [], chosen ++ c ∷ [])
  extend_Good out chosen pb c g k l =
      (ground (arith, all-append q out (pb ∷ [])), ground (arith, all-append p chosen (c ∷ [])))

  plan_from-Good :
      (lines : List Bytes) (out : List PlannedBinary) (chosen : Chosen)
      → all (contains sel) lines ≡ true
      → Good (out, chosen)
      → GoodIf (plan_from recorded lines out chosen)
  plan_from-Good [] out chosen h g = g
  plan_from-Good (line ∷ lines) out chosen h g =
      from (plan_binary line (by_line line recorded))
        (plan_binary-Picked line (by_line line recorded) refl (and_left _ _ h))
        (λ pb b k.
          plan_from-Good lines (out ++ pb ∷ []) (chosen ++ (line, b) ∷ []) (and_right _ _ h)
            (extend_Good out chosen pb (line, b) g k.0 k.1))
    where
      from :
          (o : Option (PlannedBinary × Binary))
          → PickedIf line o
          → ((pb : PlannedBinary) (b : Binary)
              → PickedIf line (some (pb, b))
              → GoodIf (plan_from recorded lines (out ++ pb ∷ []) (chosen ++ (line, b) ∷ [])))
          → GoodIf (elim o [
            | none ↦ none
            | some (pb, b) ↦ plan_from recorded lines (out ++ pb ∷ []) (chosen ++ (line, b) ∷ [])
          ])
      from none k rest = tt
      from (some (pb, b)) k rest = rest pb b k

  plan_binaries-Good : GoodIf (plan_binaries recorded sel)
  unfolding plan_binaries
  plan_binaries-Good = plan_from-Good (dedupe sel) [] [] (all-dedupe sel) (refl, refl)

  pub plan_binaries-all :
      (r : List PlannedBinary × Chosen)
      → plan_binaries recorded sel ≡ some r
      → (all q r.0 ≡ true) × (all p r.1 ≡ true)
  plan_binaries-all r e = rw e at plan_binaries-Good
