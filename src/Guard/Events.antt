-- ===== src/Guard/Events.antt =====
-- internal/guard/guard.go, `eventMask`: event types as bits, with the types that one implies.
use app_listener.Base.{
  ℕ, ◌^◌, ◌≡◌, refl, ap, ◌∙◌, ◌⊎◌, inl, inr, Bool, true, false, ◌&&◌, ◌||◌, List, [], ◌∷◌, ◌==◌,
  nat_eq, if◌then◌else◌, ltb, bit_or, Bool-cases, arith,
}
use app_listener.Base.Bits.{bit_at, bit_at-zero, bit_at-bit_or, bit_at-pow}
use app_listener.EventNames.{event_open, event_read, event_write, event_mmap, event_stat}

-- `ebpf.EventType`, an `int`: `before n` is -(n + 1).
pub data EventType : Type 0 where
  event : ℕ → EventType
  before : ℕ → EventType

-- An event mask, or the error on a type outside 0 to 31.
pub data Mask : Type 0 where
  mask : ℕ → Mask
  out_of_range : Mask

abbrev pub implies_probe : ℕ → Bool
implies_probe t = (t == event_read) || ((t == event_write) || (t == event_mmap))

-- One round of the loop on a type in range.
abbrev pub add_event : ℕ → ℕ → ℕ
add_event m t =
    let m' = bit_or m (2 ^ t) in
    if implies_probe t then bit_or (bit_or m' (2 ^ event_open)) (2 ^ event_stat) else m'

abbrev event_loop : ℕ → List EventType → Mask
event_loop m [] = mask m
event_loop m (before n ∷ types) = out_of_range
event_loop m (event t ∷ types) =
    let rest = event_loop (add_event m t) types in if ltb t 32 then rest else out_of_range

-- `eventMask`
unfoldable pub event_mask : List EventType → Mask
event_mask types = event_loop 0 types

-- Type `i` is asked for.
abbrev pub asked : List EventType → ℕ → Bool
asked [] i = false
asked (before n ∷ types) i = asked types i
asked (event t ∷ types) i = (t == i) || asked types i

abbrev pub asks_probe : List EventType → Bool
asks_probe types = asked types event_read || (asked types event_write || asked types event_mmap)

-- What a mask for `types` allows.
abbrev pub allowed : List EventType → ℕ → Bool
allowed types i = asked types i || (asks_probe types && ((i == event_open) || (i == event_stat)))

abbrev pub in_range : List EventType → Bool
in_range [] = true
in_range (before n ∷ types) = false
in_range (event t ∷ types) = ltb t 32 && in_range types

abbrev as_bit : Bool → ℕ
as_bit b = if b then 1 else 0

bit_at-add_event :
    (m t i : ℕ) (b : Bool)
    → bit_at m i ≡ as_bit b
    → bit_at (add_event m t) i
      ≡ as_bit (b || ((t == i) || (implies_probe t && ((event_open == i) || (event_stat == i)))))
bit_at-add_event m t i b h = elim (Bool-cases (implies_probe t)) [
  | inl yes' ↦
      rw
        (
          yes',
          bit_at-bit_or (bit_or (bit_or m (2 ^ t)) (2 ^ event_open)) (2 ^ event_stat) i,
          bit_at-bit_or (bit_or m (2 ^ t)) (2 ^ event_open) i,
          bit_at-bit_or m (2 ^ t) i,
          bit_at-pow t i,
          bit_at-pow event_open i,
          bit_at-pow event_stat i,
          h,
        )
        (ground arith)
  | inr no' ↦ rw (no', bit_at-bit_or m (2 ^ t) i, bit_at-pow t i, h) (ground arith)
]

event_loop-allowed :
    (types : List EventType) (m i : ℕ) (b : Bool)
    → bit_at m i ≡ as_bit b
    → in_range types ≡ true
    → (m' : ℕ) × (event_loop m types ≡ mask m') × (bit_at m' i ≡ as_bit (b || allowed types i))
event_loop-allowed [] m i b h r = (m, refl, h ∙ ap as_bit (ground arith))
event_loop-allowed (before n ∷ types) m i b h r = absurd (ground arith)
event_loop-allowed (event t ∷ types) m i b h r =
    let (m', e, q) =
      event_loop-allowed types (add_event m t) i _ (bit_at-add_event m t i b h) (ground arith) in
    (m', ground arith, q ∙ ap as_bit (ground arith))

event_loop-out_of_range :
    (types : List EventType) (m : ℕ) → in_range types ≡ false → event_loop m types ≡ out_of_range
event_loop-out_of_range [] m r = cc
event_loop-out_of_range (before n ∷ types) m r = refl
event_loop-out_of_range (event t ∷ types) m r =
    ground (arith, event_loop-out_of_range types (add_event m t))

-- The mask of types that are all in range has exactly the bits of the types asked for, with OPEN and
-- STAT where READ, WRITE or MMAP is asked for; any other list is an error.
pub event_mask-allowed :
    (types : List EventType)
    → ((in_range types ≡ false) × (event_mask types ≡ out_of_range))
      ⊎ ((in_range types ≡ true)
          × ((i : ℕ)
              → (m : ℕ) × (event_mask types ≡ mask m) × (bit_at m i ≡ as_bit (allowed types i))))
unfolding event_mask
event_mask-allowed types = elim (Bool-cases (in_range types)) [
  | inl good ↦ inr (good, λ i. event_loop-allowed types 0 i false (bit_at-zero i) good)
  | inr bad ↦ inl (bad, event_loop-out_of_range types 0 bad)
]
