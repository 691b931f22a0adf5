-- ===== src/Guard/Engine/Slots.antt =====
-- internal/guard/engine.go and taintset.go: what the two allocators of the slot table promise.
use app_listener.Base.{
  ℕ, zero, suc, ◌+◌, ◌≤◌, ◌<◌, ◌≡◌, refl, ◌⊎◌, inl, inr, true, false, ◌||◌, none, some, ◌==◌,
  nat_eq, Bool-cases, arith,
}
use app_listener.Base.Assoc.{insert, has_key-insert}
use app_listener.Guard.Engine.{
  Engine, SlotGuard, slot_busy, alloc_slot_from, alloc_slot, free_slots_from, free_resource_slots,
}

-- The table with `g` in slot `id`.
abbrev pub with_slot : Engine → ℕ → SlotGuard → Engine
with_slot e id g = record e { slots = insert id g e.slots }

slot_busy-with_slot :
    (e : Engine) (id j : ℕ) (g : SlotGuard)
    → slot_busy (with_slot e id g) j ≡ ((id == j) || slot_busy e j)
slot_busy-with_slot e id j g = ground (arith, has_key-insert id j g e.slots)

-- A slot below the range that is counted does not change the count.
free_below :
    (rounds from id : ℕ) (e : Engine) (g : SlotGuard)
    → id < from
    → free_slots_from rounds from (with_slot e id g) ≡ free_slots_from rounds from e
unfolding free_slots_from
free_below zero from id e g h = refl
free_below (suc rounds) from id e g h =
    ground (arith, free_below rounds (suc from) id e g, slot_busy-with_slot e id from g)

-- What `allocSlotLocked` answers when it starts at `from` with so many rounds left.
abbrev Allocates : ℕ → ℕ → Engine → SlotGuard → Type 0
Allocates rounds from e g =
    ((alloc_slot_from rounds from e g ≡ none) × (free_slots_from rounds from e ≡ 0))
    ⊎ ((id : ℕ) × (alloc_slot_from rounds from e g ≡ some (id, with_slot e id g))
        × (from ≤ id)
        × (id < from + rounds)
        × (slot_busy e id ≡ false)
        × ((j : ℕ) → from ≤ j → j < id → slot_busy e j ≡ true)
        × (free_slots_from rounds from (with_slot e id g) + 1 ≡ free_slots_from rounds from e))

alloc_slot_from-Allocates :
    (rounds from : ℕ) (e : Engine) (g : SlotGuard) → Allocates rounds from e g
unfolding alloc_slot_from free_slots_from
alloc_slot_from-Allocates zero from e g = inl (refl, refl)
alloc_slot_from-Allocates (suc rounds) from e g = elim (Bool-cases (slot_busy e from)) [
  | inl busy ↦ elim (alloc_slot_from-Allocates rounds (suc from) e g) [
    | inl (a, f) ↦ inl (rw busy a, rw busy f)
    | inr (id, a, lo, hi, free, least, count) ↦ inr (
      id,
      rw busy a,
      omega arith,
      omega arith,
      free,
      λ j p q. elim (Bool-cases (j == from)) [
        | inl e ↦ rw ((nat_eq.beq_iff j from).0 e) busy
        | inr n ↦ least j (ground arith) q
      ],
      ground (arith, slot_busy-with_slot e id from g),
    )
  ]
  | inr idle ↦ inr (
    from,
    rw idle,
    omega arith,
    omega arith,
    idle,
    λ j p q. absurd (omega arith),
    ground (arith, slot_busy-with_slot e from from g, free_below rounds (suc from) from e g),
  )
]

-- `allocSlotLocked` fails exactly when `FreeResourceSlots` is 0. Otherwise it takes the lowest free
-- slot, one of 1 to 511, and there is one free slot less.
pub alloc_slot_lem :
    (e : Engine) (g : SlotGuard)
    → ((alloc_slot e g ≡ none) × (free_resource_slots e ≡ 0))
      ⊎ ((id : ℕ) × (alloc_slot e g ≡ some (id, with_slot e id g))
          × (1 ≤ id)
          × (id < 512)
          × (slot_busy e id ≡ false)
          × ((j : ℕ) → 1 ≤ j → j < id → slot_busy e j ≡ true)
          × (free_resource_slots (with_slot e id g) + 1 ≡ free_resource_slots e))
unfolding alloc_slot free_resource_slots
alloc_slot_lem e g = alloc_slot_from-Allocates 511 1 e g
