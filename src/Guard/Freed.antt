-- ===== src/Guard/Freed.antt =====
-- internal/guard/supersede.go, `droppableFreed`: which freed keys a prune drops. Times are numbers.
use app_listener.Base.{
  ℕ, ◌-◌, ◌≡◌, refl, ap, ◌∙◌, Bool, true, false, not, ◌&&◌, ◌||◌, Option, none, some, List, [], ◌∷◌,
  ◌==◌, nat_eq, if◌then◌else◌, leb, contains, Bool-cases, inl, inr, arith,
}
use app_listener.Base.Assoc.{lookup, insert, lookup-insert}
use app_listener.Guard.Keys.{InodeKey, inode_eq}

-- The key was freed before, and is not held or has been held long enough.
abbrev pub may_drop : ℕ → ℕ → Bool → Option ℕ → Bool
may_drop hold_max now held none = false
may_drop hold_max now held (some at) = not held || leb hold_max (now - at)

abbrev pub freed_time : ℕ → Option ℕ → ℕ
freed_time now none = now
freed_time now (some at) = at

-- `droppableFreed`: the keys dropped, and when each key was first seen freed.
unfoldable pub droppable_freed :
    ℕ → List InodeKey → List (InodeKey × ℕ) → ℕ → Bool → List InodeKey × List (InodeKey × ℕ)
droppable_freed hold_max [] freed_at now held = ([], [])
droppable_freed hold_max (k ∷ keys) freed_at now held =
    let (drop, seen) = droppable_freed hold_max keys freed_at now held in
    let at = lookup k freed_at in
    (if may_drop hold_max now held at then k ∷ drop else drop, insert k (freed_time now at) seen)

contains-dropped :
    (hold_max : ℕ) (keys : List InodeKey) (freed_at : List (InodeKey × ℕ)) (now : ℕ) (held : Bool)
    (k : InodeKey)
    → contains (droppable_freed hold_max keys freed_at now held).0 k
      ≡ (contains keys k && may_drop hold_max now held (lookup k freed_at))
unfolding droppable_freed
contains-dropped hold_max [] freed_at now held k = refl
contains-dropped hold_max (j ∷ keys) freed_at now held k = elim (Bool-cases (j == k)) [
  | inl same ↦
      grind
        (arith, contains-dropped hold_max keys freed_at now held k, (inode_eq.beq_iff j k).0 same)
  | inr other ↦ grind (arith, contains-dropped hold_max keys freed_at now held k)
]

lookup-seen :
    (hold_max : ℕ) (keys : List InodeKey) (freed_at : List (InodeKey × ℕ)) (now : ℕ) (held : Bool)
    (k : InodeKey)
    → lookup k (droppable_freed hold_max keys freed_at now held).1
      ≡ (if contains keys k then some (freed_time now (lookup k freed_at)) else none)
unfolding droppable_freed
lookup-seen hold_max [] freed_at now held k = refl
lookup-seen hold_max (j ∷ keys) freed_at now held k =
    lookup-insert j k (freed_time now (lookup j freed_at))
      (droppable_freed hold_max keys freed_at now held).1
    ∙ (elim (Bool-cases (j == k)) [
      | inl same ↦ rw same (rw ((inode_eq.beq_iff j k).0 same) refl)
      | inr other ↦ rw other (lookup-seen hold_max keys freed_at now held k)
    ])

seen_cases :
    (hold_max now now' : ℕ) (held' earlier later : Bool) (at : Option ℕ)
    → ((later && may_drop hold_max now' held' (if earlier then some (freed_time now at) else none))
        ≡ (earlier && (later && (not held' || leb hold_max (now' - freed_time now at)))))
      × (freed_time now' (if earlier then some (freed_time now at) else none)
          ≡ (if earlier then freed_time now at else now'))
seen_cases hold_max now now' held' true true at = (refl, refl)
seen_cases hold_max now now' held' true false at = (refl, refl)
seen_cases hold_max now now' held' false true at = (refl, refl)
seen_cases hold_max now now' held' false false at = (refl, refl)

-- When a prune first saw the key freed: at a time that is remembered, or now.
abbrev pub first_seen : List (InodeKey × ℕ) → ℕ → InodeKey → ℕ
first_seen freed_at now k = elim (lookup k freed_at) [ none ↦ now | some at ↦ at ]

first_seen_lem :
    (freed_at : List (InodeKey × ℕ)) (now : ℕ) (k : InodeKey)
    → freed_time now (lookup k freed_at) ≡ first_seen freed_at now k
first_seen_lem freed_at now k = go (lookup k freed_at)
  where
    go : (o : Option ℕ) → freed_time now o ≡ elim o [ none ↦ now | some at ↦ at ]
    go none = refl
    go (some at) = refl

-- Of two prunes in a row, the second drops a key exactly when it is freed at both and, at the second,
-- is not held or has been freed for as long as the limit since a prune first saw it; so a key that
-- only the second sees freed is kept. The second remembers the keys that it sees freed and no other,
-- each by the time at which a prune first saw it.
pub droppable_freed-twice :
    (hold_max : ℕ) (keys keys' : List InodeKey) (freed_at : List (InodeKey × ℕ)) (now now' : ℕ)
    (held held' : Bool) (k : InodeKey)
    → (contains
          (droppable_freed hold_max keys'
            (droppable_freed hold_max keys freed_at now held).1
            now'
            held').0
          k
        ≡ (contains keys k
            && (contains keys' k
                && (not held' || leb hold_max (now' - first_seen freed_at now k)))))
      × (lookup k
            (droppable_freed hold_max keys'
              (droppable_freed hold_max keys freed_at now held).1
              now'
              held').1
          ≡ (if contains keys' k
              then some (if contains keys k then first_seen freed_at now k else now')
              else none))
droppable_freed-twice hold_max keys keys' freed_at now now' held held' k =
    rw⁻¹ (first_seen_lem freed_at now k) (
      (contains-dropped hold_max keys' _ now' held' k
          ∙ ap (λ o. contains keys' k && may_drop hold_max now' held' o) seen
          ∙ (seen_cases hold_max now now' held' (contains keys k) (contains keys' k)
              (lookup k freed_at)).0),
      (lookup-seen hold_max keys' _ now' held' k
          ∙ ap (λ o. if contains keys' k then some (freed_time now' o) else none) seen
          ∙ ap (λ (t : ℕ). if contains keys' k then some t else none)
              (seen_cases hold_max now now' held' (contains keys k) (contains keys' k)
                (lookup k freed_at)).1),
    )
  where
    seen :
        lookup k (droppable_freed hold_max keys freed_at now held).1
        ≡ (if contains keys k then some (freed_time now (lookup k freed_at)) else none)
    seen = lookup-seen hold_max keys freed_at now held k
