-- ===== src/Guard/Temp/Restore.antt =====
-- internal/guard/tempgrant.go: one row of a grant, written and taken back.
use app_listener.Base.{
  ℕ, suc, ◌≡◌, refl, sym, ap, ◌∙◌, ◌⊎◌, inl, inr, true, false, not, ◌&&◌, Option, none, some, ◌==◌,
  nat_eq, if◌then◌else◌, Bool-cases, arith,
}
use app_listener.Base.State.{pure}
use app_listener.Guard.Keys.{guard_block, guard_allow}
use app_listener.Guard.Kernel.{Kernel, Row, row_beq, row_beq_iff}
use app_listener.Guard.Engine.{Act}
use app_listener.Guard.Rows.{
  GuardState, ExeRow, exe_row, action_of, events_of, deployed_key, demoted_key, is_blacklist,
  restore_mask,
}
use app_listener.Guard.Engine.Quiet.{private_row}
use app_listener.Guard.Rows.Sets.{
  Sets, Sets-Quiet, Sets-put_exe_action, Sets-restore_mask, Sets-delete_row,
}
use app_listener.Guard.Rows.Holds.{
  Contents, upd, Leads, Leads-ext, Leads-pure, Leads-bind, Leads-then, Leads-Sets,
  Leads-read_exe_row,
}
use app_listener.Guard.Engine.Frame.{Quiet-note_deny}
use app_listener.Guard.Temp.{TempRow, MaskOp, mask_keep, mask_put, mask_delete}
use app_listener.Guard.Temp.Grant.{restore_temp_row, restore_temp_action, owns_mask, prior_mask}

-- The rows once the grant's row is written, over contents `F`.
abbrev pub granted_action : TempRow → Option ℕ → Option ℕ
granted_action row old = if row.new_action == 0 then old else some row.new_action

abbrev pub mask_by : MaskOp → ℕ → Option ℕ → Option ℕ
mask_by mask_put m old = some m
mask_by mask_delete m old = none
mask_by mask_keep m old = old

abbrev pub granted_mask : TempRow → Option ℕ → Option ℕ
granted_mask row old = mask_by row.mask_op row.new_mask old

abbrev pub granted : GuardState → TempRow → Contents → Contents
granted g row F =
    let a = action_of g row.bin.key in
    let e = events_of g row.bin.key in
    upd (upd F e (granted_mask row (F e))) a (granted_action row (F a))

-- A row that can be taken back: a new allow of a key that the whitelist does not have, a block of an
-- undemoted key of the whitelist, or a narrower mask.
abbrev pub Restorable : GuardState → TempRow → Type 0
Restorable g row =
    ((row.new_action ≡ guard_allow)
      × (row.prior.has_action ≡ false)
      × (deployed_key g row.bin.key ≡ false))
    ⊎ ((row.new_action ≡ guard_block)
        × (row.prior.has_action ≡ true)
        × (row.prior.action ≡ guard_allow)
        × (deployed_key g row.bin.key ≡ true)
        × (demoted_key g row.bin.key ≡ false))
    ⊎ (row.new_action ≡ 0)

-- What `readExeRow` makes of a row's action and of its mask.
action_part :
    (o m : Option ℕ)
    → (v : ℕ) → o ≡ some v
    → ((exe_row o m).has_action ≡ true) × ((exe_row o m).action ≡ v)
action_part none none v e = cc
action_part none (some x) v e = cc
action_part (some y) none v e = (refl, ground arith)
action_part (some y) (some x) v e = (refl, ground arith)

mask_part :
    (o m : Option ℕ) → (if (exe_row o m).has_mask then some (exe_row o m).mask else none) ≡ m
mask_part none none = refl
mask_part none (some x) = refl
mask_part (some y) none = refl
mask_part (some y) (some x) = refl

mask_has :
    (o m : Option ℕ) (v : ℕ)
    → m ≡ some v
    → ((exe_row o m).has_mask ≡ true) × ((exe_row o m).mask ≡ v)
mask_has o none v e = cc
mask_has none (some x) v e = (refl, ground arith)
mask_has (some y) (some x) v e = (refl, ground arith)

mask_lacks : (o m : Option ℕ) → m ≡ none → (exe_row o m).has_mask ≡ false
mask_lacks none none e = refl
mask_lacks (some y) none e = refl
mask_lacks o (some x) e = cc

absent_part : (o m : Option ℕ) → (exe_row o m).has_action ≡ false → o ≡ none
absent_part none m e = refl
absent_part (some y) none e = cc
absent_part (some y) (some x) e = cc

present_part :
    (o m : Option ℕ) (v : ℕ)
    → (exe_row o m).has_action ≡ true
    → (exe_row o m).action ≡ v
    → o ≡ some v
present_part none none v e f = cc
present_part none (some x) v e f = cc
present_part (some y) none v e f = ground arith
present_part (some y) (some x) v e f = ground arith

owns_put :
    (K : Kernel) (row : TempRow) (now : ExeRow)
    → row.mask_op ≡ mask_put
    → now.has_mask ≡ true
    → now.mask ≡ row.new_mask
    → owns_mask K row now ≡ true
owns_put K row now e has is = rw e (ground arith)

owns_delete :
    (K : Kernel) (row : TempRow) (now : ExeRow)
    → row.mask_op ≡ mask_delete
    → now.has_mask ≡ false
    → owns_mask K row now ≡ true
owns_delete K row now e lacks = rw e (ground arith)

module _ (K : Kernel) (g : GuardState) (row : TempRow) (F : Contents) where
  a_row : Row
  a_row = action_of g row.bin.key

  e_row : Row
  e_row = events_of g row.bin.key

  after : Contents
  after = granted g row F

  a_row-private : private_row g.res_id a_row ≡ true
  unfolding a_row
  a_row-private = ground arith

  after_action : after a_row ≡ granted_action row (F a_row)
  unfolding after a_row
  after_action = ground (arith, row_beq_iff a_row a_row)

  after_mask : after e_row ≡ granted_mask row (F e_row)
  unfolding after a_row e_row
  after_mask = ground (arith, row_beq_iff e_row e_row)

  put_back : Contents
  put_back = upd (upd after a_row (F a_row)) e_row (F e_row)

  -- Both rows put back are the contents before.
  back : (q : Row) → put_back q ≡ F q
  unfolding after a_row e_row put_back
  back q = elim (Bool-cases (row_beq e_row q)) [
    | inl same ↦ rw same (ap F ((row_beq_iff e_row q).0 same))
    | inr other ↦ elim (Bool-cases (row_beq a_row q)) [
      | inl same ↦ rw (other, same) (ap F ((row_beq_iff a_row q).0 same))
      | inr more ↦ rw (other, more) refl
    ]
  ]

  cur : ExeRow
  cur = exe_row (after a_row) (after e_row)

  -- The action row set to `v`, which is what it held before.
  Leads-action :
      (v : Option ℕ) (m : Act K (Unit {0}))
      → F a_row ≡ v
      → Sets K g.res_id a_row v m
      → Leads K g.res_id after m tt (upd after a_row (F a_row))
  Leads-action v m e s =
      Leads-ext K g.res_id after _ _ m tt (λ q. ap (λ o. upd after a_row o q) (sym e))
        (Leads-Sets K g.res_id after a_row v m s)

  written : (v : ℕ) → row.new_action ≡ suc v → (cur.has_action ≡ true) × (cur.action ≡ suc v)
  unfolding cur
  written v e = action_part (after a_row) (after e_row) (suc v) (after_action ∙ ground arith)

  untouched : row.new_action ≡ 0 → (q : Row) → after q ≡ upd after a_row (F a_row) q
  unfolding after a_row
  untouched e q = elim (Bool-cases (row_beq a_row q)) [
    | inl same ↦ rw same (ground arith)
    | inr other ↦ rw other refl
  ]

  restore_action :
      is_blacklist g.mode ≡ false
      → Restorable g row
      → row.prior ≡ exe_row (F a_row) (F e_row)
      → Leads K g.res_id after
          (restore_temp_action K g row cur (deployed_key g row.bin.key))
          tt
          (upd after a_row (F a_row))
  unfolding restore_temp_action a_row
  restore_action h (inl (allow, lacks, own)) p =
      let (has, is) = written 1 allow in
      let test : ((row.new_action == guard_allow)
            && (cur.has_action && (cur.action == guard_allow)))
          ≡ true =
        ground arith in
      rw test (
        Leads-action none _
          (absent_part (F a_row) (F e_row) (sym (ap (λ r. r.has_action) p) ∙ lacks))
          (Sets-Quiet K g.res_id a_row none _ _ (a_row-private) (Sets-delete_row K g.res_id a_row)
            (Quiet-note_deny K g.res_id g.res_id row.bin.key)))
  restore_action h (inr (inl (block, had, allow, own, sound))) p =
      let (has, is) = written 0 block in
      let first : ((row.new_action == guard_allow)
            && (cur.has_action && (cur.action == guard_allow)))
          ≡ false =
        ground arith in
      let second : ((row.new_action == guard_block)
            && ((cur.has_action && (cur.action == guard_block))
                && (deployed_key g row.bin.key && not (demoted_key g row.bin.key))))
          ≡ true =
        ground arith in
      rw (first, second)
        (Leads-action (some guard_allow) _
          (present_part (F a_row) (F e_row) guard_allow (sym (ap (λ r. r.has_action) p) ∙ had)
            (sym (ap (λ r. r.action) p) ∙ allow))
          (Sets-put_exe_action K g row.bin.key guard_allow h))
  restore_action h (inr (inr nought)) p =
      let first : ((row.new_action == guard_allow)
            && (cur.has_action && (cur.action == guard_allow)))
          ≡ false =
        ground arith in
      let second : ((row.new_action == guard_block)
            && ((cur.has_action && (cur.action == guard_block))
                && (deployed_key g row.bin.key && not (demoted_key g row.bin.key))))
          ≡ false =
        ground arith in
      rw (first, second)
        (Leads-ext K g.res_id after _ _ _ tt (untouched nought) (Leads-pure K g.res_id after tt))

  -- Each branch of the mask's restore leaves the mask that was there.
  restore_mask_part :
      row.prior ≡ exe_row (F a_row) (F e_row)
      → Leads K g.res_id
          (upd after a_row (F a_row))
          (if owns_mask K row cur then restore_mask K g row.bin.key (prior_mask K row) else pure tt)
          tt
          F
  unfolding cur put_back e_row a_row
  restore_mask_part p = go row.mask_op refl
    where
      value : prior_mask K row ≡ F e_row
      value = ap (λ r. if r.has_mask then some r.mask else none) p ∙ mask_part (F a_row) (F e_row)

      G : Contents
      G = upd after a_row (F a_row)

      away : (q : Row) → row_beq e_row q ≡ false → put_back q ≡ G q
      away q miss = rw miss refl

      same : (q : Row) → after e_row ≡ F e_row → G q ≡ F q
      same q e = elim (Bool-cases (row_beq e_row q)) [
        | inl hit ↦ rw (sym ((row_beq_iff e_row q).0 hit)) e
        | inr miss ↦ sym (away q miss) ∙ back q
      ]

      owned :
          owns_mask K row cur ≡ true
          → Leads K g.res_id G
              (if owns_mask K row cur
                then restore_mask K g row.bin.key (prior_mask K row)
                else pure tt)
              tt
              F
      owned o = rw o (
          Leads-ext K g.res_id G _ F _ tt (λ q. ap (λ m. upd G e_row m q) value ∙ back q)
            (Leads-Sets K g.res_id G e_row (prior_mask K row) _
              (Sets-restore_mask K g row.bin.key (prior_mask K row))))

      go :
          (op : MaskOp)
          → row.mask_op ≡ op
          → Leads K g.res_id G
              (if owns_mask K row cur
                then restore_mask K g row.bin.key (prior_mask K row)
                else pure tt)
              tt
              F
      go mask_put e =
          let (has, is) =
            mask_has (after a_row) (after e_row) row.new_mask (after_mask ∙ rw e refl) in
          owned (owns_put K row cur e has is)
      go mask_delete e =
          let lacks = mask_lacks (after a_row) (after e_row) (after_mask ∙ rw e refl) in
          owned (owns_delete K row cur e lacks)
      go mask_keep e =
          let disowned : owns_mask K row cur ≡ false = rw e refl in
          rw disowned (
            Leads-ext K g.res_id G G F _ tt (λ q. same q (after_mask ∙ rw e refl))
              (Leads-pure K g.res_id G tt))

  -- A grant's row taken back: from the rows as the grant left them, a revocation that succeeds puts
  -- both rows back as they were found, if the row can be taken back and the guard is no blacklist.
  pub Leads-restore_temp_row :
      is_blacklist g.mode ≡ false
      → Restorable g row
      → row.prior ≡ exe_row (F (action_of g row.bin.key)) (F (events_of g row.bin.key))
      → Leads K g.res_id (granted g row F) (restore_temp_row K g row) tt F
  unfolding restore_temp_row after cur a_row e_row
  Leads-restore_temp_row h r p =
      Leads-bind K g.res_id after after F _ _ cur tt (Leads-read_exe_row K g after row.bin.key) (
        rw (free r)
          (Leads-then K g.res_id after _ F _ _ tt (restore_action h r p) (restore_mask_part p)))
    where
      free :
          Restorable g row → ((row.new_action == guard_allow) && deployed_key g row.bin.key) ≡ false
      free r = ground arith
