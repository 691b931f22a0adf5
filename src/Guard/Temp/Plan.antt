-- ===== src/Guard/Temp/Plan.antt =====
-- internal/guard/tempgrant.go, `planTempAllow` and `planTempBlock`: what the planned rows may do.
use app_listener.Base.{
  ℕ, ◌^◌, ◌<◌, ◌≡◌, refl, ap, ◌∙◌, ◌⊎◌, inl, inr, Bool, true, false, ◌||◌, List, [], ◌∷◌, ◌==◌,
  nat_eq, if◌then◌else◌, bit_or, Bool-cases, arith,
}
use app_listener.Base.Bits.{
  bit_at, bit_at-zero, bit_at-bit_or, bit_at-pow, and_not, bit_at-and_not, all_ones, all_ones-bit,
}
use app_listener.Guard.Keys.{guard_block, guard_allow}
use app_listener.Guard.Events.{
  EventType, event, before, Mask, mask, out_of_range, asked, allowed, in_range, event_mask,
  event_mask-allowed,
}
use app_listener.Guard.Rows.{ExeRow}
use app_listener.Guard.Temp.{
  TempRow, TempBinary, MaskOp, change, new_row, mask_keep, mask_put, mask_delete, plan_temp_allow,
  plan_temp_block, deny_bits, block_mask,
}

abbrev as_bit : Bool → ℕ
as_bit b = if b then 1 else 0

deny_bits-asked :
    (types : List EventType) (d m i : ℕ) (b : Bool)
    → bit_at d i ≡ as_bit b
    → deny_bits d types ≡ mask m
    → bit_at m i ≡ as_bit (b || asked types i)
deny_bits-asked [] d m i b h e = ground arith
deny_bits-asked (before n ∷ types) d m i b h e = cc
deny_bits-asked (event t ∷ types) d m i b h e =
    let step : bit_at (bit_or d (2 ^ t)) i ≡ as_bit (b || (t == i)) =
      rw (bit_at-bit_or d (2 ^ t) i, bit_at-pow t i, h) (ground arith) in
    deny_bits-asked types (bit_or d (2 ^ t)) m i (b || (t == i)) step (ground arith)
    ∙ ap as_bit (ground arith)

-- The events that a whitelist row lets through: those of its mask, or all of them.
abbrev pub lets : ExeRow → ℕ → ℕ
lets row i = if row.has_mask then bit_at row.mask i else 1

module _ (b : TempBinary) (prior : ExeRow) (row : TempRow) where
  masked :
      (types : List EventType) (d : Mask)
      → deny_bits 0 types ≡ d
      → block_mask (new_row b prior) d ≡ change row
      → (row.new_action ≡ 0)
        × (row.mask_op ≡ mask_put)
        × ((i : ℕ) → i < 32 → bit_at row.new_mask i ≡ (if asked types i then 0 else lets prior i))
  masked types out_of_range q e = cc
  masked types (mask deny) q e = (ground arith, ground arith, bits)
    where
      base : ℕ
      base = if prior.has_mask then prior.mask else all_ones

      value : row.new_mask ≡ and_not base deny
      value = ground arith

      bits : (i : ℕ) → i < 32 → bit_at row.new_mask i ≡ (if asked types i then 0 else lets prior i)
      bits i h =
          ap (λ m. bit_at m i) value
          ∙ bit_at-and_not base deny i h
          ∙ ground (arith, deny_bits-asked types 0 deny i false (bit_at-zero i) q, all_ones-bit i h)

-- A planned block is of an allowed binary. With no events it blocks the binary; with events it leaves
-- the action alone and takes exactly the events asked for out of what the row lets through.
pub plan_temp_block-narrows :
    (b : TempBinary) (prior : ExeRow) (types : List EventType) (row : TempRow)
    → plan_temp_block (new_row b prior) types ≡ change row
    → (prior.has_action ≡ true)
      × (prior.action ≡ guard_allow)
      × (((types ≡ []) × (row ≡ record (new_row b prior) { new_action = guard_block }))
          ⊎ ((row.new_action ≡ 0)
              × (row.mask_op ≡ mask_put)
              × ((i : ℕ)
                  → i < 32
                  → bit_at row.new_mask i ≡ (if asked types i then 0 else lets prior i))))
unfolding plan_temp_block
plan_temp_block-narrows b prior [] row e = (ground arith, ground arith, inl (refl, ground arith))
plan_temp_block-narrows b prior (t ∷ types) row e = (
  ground arith,
  ground arith,
  inr (masked b prior row (t ∷ types) (deny_bits 0 (t ∷ types)) refl (ground arith)),
)

module _ (b : TempBinary) (prior : ExeRow) (row : TempRow) where
  allowed_mask :
      (t : EventType) (types : List EventType) (m : Mask)
      → event_mask (t ∷ types) ≡ m
      → plan_temp_allow (new_row b prior) (t ∷ types) ≡ change row
      → (prior.has_action ≡ false)
        × (row.new_action ≡ guard_allow)
        × (row.mask_op ≡ mask_put)
        × (event_mask (t ∷ types) ≡ mask row.new_mask)
  unfolding plan_temp_allow
  allowed_mask t types out_of_range q e = elim (Bool-cases prior.has_action) [
    | inl has ↦ ground arith
    | inr lacks ↦ ground arith
  ]
  allowed_mask t types (mask m) q e = elim (Bool-cases prior.has_action) [
    | inl has ↦ ground arith
    | inr lacks ↦ ground arith
  ]

-- The events that the binary has once the planned row is written: those of the mask it writes, all where
-- the mask goes, and what they were where the mask stays.
abbrev pub lets_after : ExeRow → MaskOp → ℕ → ℕ → ℕ
lets_after prior mask_put new_mask i = bit_at new_mask i
lets_after prior mask_delete new_mask i = 1
lets_after prior mask_keep new_mask i = lets prior i

-- The events that a rule allows: all where it names none.
abbrev pub ruled : List EventType → ℕ → ℕ
ruled [] i = 1
ruled (t ∷ types) i = if allowed (t ∷ types) i then 1 else 0

mask_of_event_mask :
    (types : List EventType) (m : ℕ)
    → event_mask types ≡ mask m
    → (in_range types ≡ true) × ((i : ℕ) → bit_at m i ≡ (if allowed types i then 1 else 0))
mask_of_event_mask types m e = elim (event_mask-allowed types) [
  | inl (bad, refused) ↦ absurd (same_mask (event_mask types) m e refused)
  | inr (good, bits) ↦ (
    good,
    λ i.
        let (m', e', bit) = bits i in
        ap (λ n. bit_at n i) (equal_masks (event_mask types) m m' e e') ∙ bit,
  )
]
  where
    same_mask : (o : Mask) (m : ℕ) → o ≡ mask m → o ≡ out_of_range → ⊥
    same_mask o m p q = cc

    equal_masks : (o : Mask) (m m' : ℕ) → o ≡ mask m → o ≡ mask m' → m ≡ m'
    equal_masks o m m' p q = cc

-- A planned allow is of a binary that has no action on the resource, blocked or allowed; every event
-- type asked for is one of 0 to 31, and once the row is written the binary has exactly the events that
-- the rule allows: all of them where the rule names none, whatever mask was left on the row, and else
-- those asked for, with OPEN and STAT where READ, WRITE or MMAP is.
pub plan_temp_allow-ruled :
    (b : TempBinary) (prior : ExeRow) (types : List EventType) (row : TempRow)
    → plan_temp_allow (new_row b prior) types ≡ change row
    → (prior.has_action ≡ false)
      × (row.new_action ≡ guard_allow)
      × (in_range types ≡ true)
      × ((i : ℕ) → lets_after prior row.mask_op row.new_mask i ≡ ruled types i)
unfolding plan_temp_allow
plan_temp_allow-ruled b prior [] row e =
    (ground arith, ground arith, refl, λ i. keeps_all i (ground arith))
  where
    keeps_all :
        (i : ℕ)
        → ((row.mask_op ≡ mask_keep) × (prior.has_mask ≡ false)) ⊎ (row.mask_op ≡ mask_delete)
        → lets_after prior row.mask_op row.new_mask i ≡ 1
    keeps_all i (inl (keep, bare)) =
        ap (λ op. lets_after prior op row.new_mask i) keep
        ∙ ap (λ m. if m then bit_at prior.mask i else 1) bare
    keeps_all i (inr gone) = ap (λ op. lets_after prior op row.new_mask i) gone
plan_temp_allow-ruled b prior (t ∷ types) row e =
    let (lacks, allow, put, value) =
      allowed_mask b prior row t types (event_mask (t ∷ types)) refl e in
    let (good, bits) = mask_of_event_mask (t ∷ types) row.new_mask value in
    (lacks, allow, good, λ i. ap (λ op. lets_after prior op row.new_mask i) put ∙ bits i)
