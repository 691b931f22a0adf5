-- ===== src/Guard/Strip.antt =====
-- internal/guard/tempgrant.go, `StripPinnedTempAllows`: what is taken from a dead daemon's pinned maps.
use app_listener.Base.{
  ℕ, ◌+◌, ◌≡◌, refl, ap, ◌∙◌, ◌⊎◌, inl, inr, Bool, true, false, not, ◌&&◌, ◌||◌, Option, none, some,
  List, [], ◌∷◌, ◌++◌, ◌==◌, nat_eq, if◌then◌else◌, contains, Bool-cases, arith,
}
use app_listener.Base.State.{Error, kernel_fault}
use app_listener.Guard.Keys.{ResInodeKey, res_inode_eq, guard_allow}
use app_listener.Guard.Kernel.{
  Kernel, action_row, event_row, Found, found, absent, fault, Answers, Deletion, deleted, missing,
  failed, after_delete,
}

abbrev pub quiet : List Error → Bool
quiet [] = true
quiet (e ∷ es) = false

abbrev pub is_allow : Option ℕ → Bool
is_allow none = false
is_allow (some action) = action == guard_allow

-- What a strip makes of an action `a` and a mask `e`, which are `a'` and `e'` afterwards. They are kept:
-- then there was an error, the journal does not name them, or the action is no plain allow. Or a plain
-- allow that the journal names is gone, and its mask with it, unless there is no map of masks or there was
-- an error: then it may be as it was.
abbrev pub Strips : Bool → Bool → List Error → Option ℕ → Option ℕ → Option ℕ → Option ℕ → Type 0
Strips events named es a e a' e' =
    ((a' ≡ a) × (e' ≡ e) × ((quiet es ≡ false) ⊎ (named ≡ false) ⊎ (is_allow a ≡ false)))
    ⊎ ((named ≡ true)
        × (a ≡ some guard_allow)
        × (a' ≡ none)
        × ((e' ≡ none) ⊎ ((e' ≡ e) × ((quiet es ≡ false) ⊎ (events ≡ false)))))

quiet-append : (xs ys : List Error) → quiet (xs ++ ys) ≡ (quiet xs && quiet ys)
quiet-append [] ys = refl
quiet-append (x ∷ xs) ys = refl

Strips-then :
    (events n m : Bool) (es fs : List Error) (a e a' e' a'' e'' : Option ℕ)
    → Strips events n es a e a' e'
    → Strips events m fs a' e' a'' e''
    → Strips events (n || m) (es ++ fs) a e a'' e''
Strips-then events n m es fs a e a' e' a'' e'' h k = ground (arith, quiet-append es fs, h, k)

Strips-from :
    (events n : Bool) (es : List Error) (a e b f a' e' : Option ℕ)
    → a ≡ b
    → e ≡ f
    → Strips events n es a e a' e'
    → Strips events n es b f a' e'
Strips-from events n es a e b f a' e' p q h = rw (← p, ← q) h

-- The deletion of the mask, after an allow is gone.
Strips-mask :
    (named : Bool) (d : Deletion) (a e a' e' a'' e'' : Option ℕ)
    → (named ≡ true → a ≡ some guard_allow)
    → a' ≡ (if named then none else a)
    → e' ≡ e
    → a'' ≡ after_delete d false a'
    → e'' ≡ after_delete d named e'
    → Strips true named (elim d [ failed ↦ kernel_fault ∷ [] | _ ↦ [] ]) a e a'' e''
Strips-mask true deleted a e a' e' a'' e'' own p q r t = ground (arith, own refl)
Strips-mask true missing a e a' e' a'' e'' own p q r t = ground (arith, own refl)
Strips-mask true failed a e a' e' a'' e'' own p q r t = ground (arith, own refl)
Strips-mask false deleted a e a' e' a'' e'' own p q r t = ground arith
Strips-mask false missing a e a' e' a'' e'' own p q r t = ground arith
Strips-mask false failed a e a' e' a'' e'' own p q r t = ground arith

module _ (K : Kernel) where
  -- What one row's strip answers: whether it was stripped, and its errors.
  abbrev pub Stripped : Type 0
  Stripped = Bool × List Error × K.State

  -- The end of `stripPinnedAllow`, on the events map where there is one.
  abbrev pub strip_events : Bool → ResInodeKey → K.State → Stripped
  strip_events false k s = (true, [], s)
  strip_events true k s =
      let (d, s') = K.delete (event_row k) s in
      (true, elim d [ failed ↦ kernel_fault ∷ [] | _ ↦ [] ], s')

  abbrev pub strip_action : Bool → ResInodeKey → Deletion → K.State → Stripped
  strip_action events k failed s = (false, kernel_fault ∷ [], s)
  strip_action events k deleted s = strip_events events k s
  strip_action events k missing s = strip_events events k s

  abbrev pub strip_found : Bool → ResInodeKey → Found → K.State → Stripped
  strip_found events k absent s = (false, [], s)
  strip_found events k fault s = (false, kernel_fault ∷ [], s)
  strip_found events k (found action) s =
      if not (action == guard_allow)
      then (false, [], s)
      else (let (d, s') = K.delete (action_row k) s in strip_action events k d s')

  -- `stripPinnedAllow`
  unfoldable pub strip_pinned_allow : Bool → ResInodeKey → K.State → Stripped
  strip_pinned_allow events k s =
      let (f, s') = K.lookup (action_row k) s in strip_found events k f s'

  -- The loop of `StripPinnedTempAllows`: how many rows were stripped, and the errors.
  unfoldable pub strip_pinned_temp_allows :
      Bool → List ResInodeKey → K.State → ℕ × List Error × K.State
  strip_pinned_temp_allows events [] s = (0, [], s)
  strip_pinned_temp_allows events (k ∷ rows) s =
      let (stripped, es, s') = strip_pinned_allow events k s in
      let (n, es', s'') = strip_pinned_temp_allows events rows s' in
      ((if stripped then 1 else 0) + n, es ++ es', s'')

  Strips-strip_events :
      (events : Bool) (j k : ResInodeKey) (s : K.State) (a e : Option ℕ)
      → ((j == k) ≡ true → a ≡ some guard_allow)
      → K.row s (action_row k) ≡ (if j == k then none else a)
      → K.row s (event_row k) ≡ e
      → Strips events
          (j == k)
          (strip_events events j s).1
          a
          e
          (K.row (strip_events events j s).2 (action_row k))
          (K.row (strip_events events j s).2 (event_row k))
  Strips-strip_events true j k s a e own p q =
      Strips-mask (j == k) (K.delete (event_row j) s).0 a e _ _ _ _ own p q
        (K.delete_row (event_row j) s (action_row k)) (K.delete_row (event_row j) s (event_row k))
  Strips-strip_events false j k s a e own p q = ground (arith, own)

  Strips-strip_action :
      (events : Bool) (j k : ResInodeKey) (d : Deletion) (s : K.State) (a e : Option ℕ)
      → ((j == k) ≡ true → a ≡ some guard_allow)
      → K.row s (action_row k) ≡ after_delete d (j == k) a
      → K.row s (event_row k) ≡ after_delete d false e
      → Strips events
          (j == k)
          (strip_action events j d s).1
          a
          e
          (K.row (strip_action events j d s).2 (action_row k))
          (K.row (strip_action events j d s).2 (event_row k))
  Strips-strip_action events j k failed s a e own p q = inl (p, q, inl refl)
  Strips-strip_action events j k deleted s a e own p q =
      Strips-strip_events events j k s a e own p q
  Strips-strip_action events j k missing s a e own p q =
      Strips-strip_events events j k s a e own p q

  Strips-strip_found :
      (events : Bool) (j k : ResInodeKey) (f : Found) (s : K.State)
      → ((j == k) ≡ true → Answers (K.row s (action_row k)) f)
      → Strips events
          (j == k)
          (strip_found events j f s).1
          (K.row s (action_row k))
          (K.row s (event_row k))
          (K.row (strip_found events j f s).2 (action_row k))
          (K.row (strip_found events j f s).2 (event_row k))
  Strips-strip_found events j k absent s own = ground (arith, own)
  Strips-strip_found events j k fault s own = inl (refl, refl, inl refl)
  Strips-strip_found events j k (found action) s own = elim (Bool-cases (action == guard_allow)) [
    | inl allow ↦ rw allow (
        Strips-strip_action events j k (K.delete (action_row j) s).0 (K.delete (action_row j) s).1 _
          _ (λ same. own same ∙ ap some (ground arith))
          (K.delete_row (action_row j) s (action_row k))
          (K.delete_row (action_row j) s (event_row k)))
    | inr other ↦ rw other (ground (arith, own))
  ]

  Strips-strip_pinned_allow :
      (events : Bool) (j k : ResInodeKey) (s : K.State)
      → Strips events
          (j == k)
          (strip_pinned_allow events j s).1
          (K.row s (action_row k))
          (K.row s (event_row k))
          (K.row (strip_pinned_allow events j s).2 (action_row k))
          (K.row (strip_pinned_allow events j s).2 (event_row k))
  unfolding strip_pinned_allow
  Strips-strip_pinned_allow events j k s =
      Strips-from events (j == k) _ _ _ _ _ _ _ (K.lookup_keeps (action_row j) s (action_row k))
        (K.lookup_keeps (action_row j) s (event_row k))
        (Strips-strip_found events j k (K.lookup (action_row j) s).0 (K.lookup (action_row j) s).1
          (λ same. answer j k same))
    where
      answer :
          (j k : ResInodeKey)
          → (j == k) ≡ true
          → Answers
              (K.row (K.lookup (action_row j) s).1 (action_row k))
              (K.lookup (action_row j) s).0
      answer j k same =
          rw (K.lookup_keeps (action_row j) s (action_row k))
            (rw ((res_inode_eq.beq_iff j k).0 same) (K.lookup_answers (action_row k) s))

  -- What a strip does to the action and the mask of each key, whatever fails on the way: they are as they
  -- were, or the key is in the journal, its action was a plain allow and is gone, and its mask is as it
  -- was or gone. Where no error is reported, every plain allow that the journal names is gone, and so is
  -- its mask if there is a map of masks.
  pub strip_pinned_temp_allows-Strips :
      (events : Bool) (rows : List ResInodeKey) (s : K.State) (k : ResInodeKey)
      → Strips events
          (contains rows k)
          (strip_pinned_temp_allows events rows s).1
          (K.row s (action_row k))
          (K.row s (event_row k))
          (K.row (strip_pinned_temp_allows events rows s).2 (action_row k))
          (K.row (strip_pinned_temp_allows events rows s).2 (event_row k))
  unfolding strip_pinned_temp_allows
  strip_pinned_temp_allows-Strips events [] s k = inl (refl, refl, inr (inl refl))
  strip_pinned_temp_allows-Strips events (j ∷ rows) s k =
      Strips-then events (j == k) (contains rows k) (strip_pinned_allow events j s).1
        (strip_pinned_temp_allows events rows (strip_pinned_allow events j s).2).1 _ _ _ _ _ _
        (Strips-strip_pinned_allow events j k s)
        (strip_pinned_temp_allows-Strips events rows (strip_pinned_allow events j s).2 k)
