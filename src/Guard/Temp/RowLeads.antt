-- ===== src/Guard/Temp/RowLeads.antt =====
-- internal/guard/tempgrant.go: what writing one row of a grant does to the resource's rows.
use app_listener.Base.{
  ℕ, ◌≡◌, refl, sym, ap, ◌∙◌, inl, inr, Bool, true, false, Option, none, some, ◌==◌, nat_eq,
  if◌then◌else◌, Bool-cases, arith,
}
use app_listener.Base.State.{Error, ok, pure, throw, ◌>>=◌, ◌>>◌, when, bind_cases}
use app_listener.Guard.Keys.{guard_block, guard_allow}
use app_listener.Guard.Kernel.{Kernel, Row, action_row, event_row, row_beq, row_beq_iff}
use app_listener.Guard.Engine.{Act, lookup_row}
use app_listener.Guard.Engine.Quiet.{Quiet, Quiet-put_row}
use app_listener.Guard.Rows.{GuardState, action_of, events_of, is_blacklist}
use app_listener.Guard.Rows.Sets.{Sets-put_exe_action, Sets-restore_mask, Sets-put_row}
use app_listener.Guard.Rows.Holds.{Contents, upd, Holds, Leads, Leads-ext, Leads-pure, Leads-Sets}
use app_listener.Guard.Temp.{TempRow, MaskOp, mask_keep, mask_put, mask_delete}
use app_listener.Guard.Temp.Grant.{
  RowWorld, RowAct, on_world, set_row, remember, mark_runtime, trust_temp_runtime, write_mask,
  write_temp_row,
}
use app_listener.Guard.Temp.Restore.{granted, granted_mask, granted_action, Restorable}

-- What a row keeps while it is written.
unfoldable pub Follows : TempRow → TempRow → Type 0
Follows r s =
    (s.bin ≡ r.bin)
    × (s.prior ≡ r.prior)
    × (s.new_action ≡ r.new_action)
    × (s.mask_op ≡ r.mask_op)
    × (s.new_mask ≡ r.new_mask)
    × (r.applied ≡ true → s.applied ≡ true)

pub Follows-same : (r : TempRow) → Follows r r
unfolding Follows
Follows-same r = (refl, refl, refl, refl, refl, λ e. e)

pub Follows-then : (r s t : TempRow) → Follows r s → Follows s t → Follows r t
unfolding Follows
Follows-then r s t (a, b, c, d, e, f) (a', b', c', d', e', f') =
    (a' ∙ a, b' ∙ b, c' ∙ c, d' ∙ d, e' ∙ e, λ h. f' (f h))

module _ (K : Kernel) (g : GuardState) where
  -- A successful run on a row takes contents `F` to `G`, and its result is as `P` says.
  pub record RowLeads {A : Type 0} (F : Contents) (m : RowAct K A) (P : A → Type 0) (G : Contents)
      : Type 0 where
    pub run :
        (s : RowWorld K.State) (x : A)
        → Holds K g.res_id F s.world
        → (m s).0 ≡ ok x
        → P x × Holds K g.res_id G (m s).1.world × Follows s.row (m s).1.row

  RowLeads-bind :
      {A B : Type 0} (F G H : Contents) (m : RowAct K A) (f : A → RowAct K B) (P : A → Type 0)
      (Q : B → Type 0)
      → RowLeads F m P G
      → ((a : A) → P a → RowLeads G (f a) Q H)
      → RowLeads F (m >>= f) Q H
  RowLeads-bind F G H m f P Q l l' = record {
    run = λ s y h.
        bind_cases (λ p. p.0 ≡ ok y → Q y × Holds K g.res_id H p.1.world × Follows s.row p.1.row) m
          f s
          (λ x good end.
            let (p, h', kept) = l.run s x h good in
            let (q, h'', more) = (l' x p).run (m s).1 y h' end in
            (q, h'', Follows-then _ _ _ kept more))
          (λ e _ bad. cc);
  }

  unfoldable pub Any : {A : Type 0} → A → Type 0
  Any x = Unit

  RowLeads-then :
      {B : Type 0} (F G H : Contents) (m : RowAct K (Unit {0})) (k : RowAct K B) (Q : B → Type 0)
      → RowLeads F m Any G
      → RowLeads G k Q H
      → RowLeads F (m >> k) Q H
  unfolding ◌>>◌
  RowLeads-then F G H m k Q l l' = RowLeads-bind F G H m (λ _. k) Any Q l (λ _ _. l')

  RowLeads-pure : (F : Contents) → RowLeads F (pure tt) Any F
  unfolding pure Any
  RowLeads-pure F = record { run = λ s x h good. (tt, h, Follows-same _) }

  RowLeads-throw :
      {A : Type 0} (F G : Contents) (e : Error) (P : A → Type 0) → RowLeads F (throw e) P G
  unfolding throw
  RowLeads-throw F G e P = record { run = λ s x h good. cc }

  RowLeads-on_world :
      {A : Type 0} (F G : Contents) (m : Act K A) (a : A)
      → Leads K g.res_id F m a G
      → RowLeads F (on_world K m) (λ x. x ≡ a) G
  unfolding on_world
  RowLeads-on_world F G m a l = record {
    run = λ s x h good. let (e, h') = l.run s.world x h good in (e, h', Follows-same _);
  }

  RowLeads-Unit :
      (F G : Contents) (m : Act K (Unit {0}))
      → Leads K g.res_id F m tt G
      → RowLeads F (on_world K m) Any G
  unfolding on_world Any
  RowLeads-Unit F G m l = record {
    run = λ s x h good. let (e, h') = l.run s.world x h good in (tt, h', Follows-same _);
  }

  RowLeads-Quiet :
      {A : Type 0} (F : Contents) (m : Act K A)
      → Quiet K g.res_id m
      → RowLeads F (on_world K m) Any F
  unfolding on_world Any
  RowLeads-Quiet F m q = record {
    run = λ s x h good.
        let (kept, own) = q.run s.world h.own in
        (tt, record { own = own; at = λ row p. kept row p ∙ h.at row p }, Follows-same _);
  }

  RowLeads-set_row :
      (F : Contents) (f : TempRow → TempRow)
      → ((r : TempRow) → Follows r (f r))
      → RowLeads F (set_row K f) Any F
  unfolding set_row Any
  RowLeads-set_row F f k = record { run = λ s x h good. (tt, h, k s.row) }

  RowLeads-if :
      (F G : Contents) (b : Bool) (m k : RowAct K (Unit {0}))
      → RowLeads F m Any G
      → RowLeads F k Any G
      → RowLeads F (if b then m else k) Any G
  RowLeads-if F G true m k l l' = l
  RowLeads-if F G false m k l l' = l'

  Leads-write_mask :
      (F : Contents) (row : TempRow)
      → Leads K g.res_id F
          (write_mask K g row)
          tt
          (upd F (events_of g row.bin.key) (granted_mask row (F (events_of g row.bin.key))))
  Leads-write_mask F row = go row.mask_op refl
    where
      e_row : Row
      e_row = events_of g row.bin.key

      as_was : (q : Row) → F q ≡ upd F e_row (F e_row) q
      as_was q = elim (Bool-cases (row_beq e_row q)) [
        | inl hit ↦ rw hit (ap F (sym ((row_beq_iff e_row q).0 hit)))
        | inr miss ↦ rw miss refl
      ]

      go :
          (op : MaskOp)
          → row.mask_op ≡ op
          → Leads K g.res_id F (write_mask K g row) tt (upd F e_row (granted_mask row (F e_row)))
      go mask_put e =
          rw e (Leads-Sets K g.res_id F e_row _ _ (Sets-put_row K g.res_id e_row row.new_mask))
      go mask_delete e =
          rw e (Leads-Sets K g.res_id F e_row _ _ (Sets-restore_mask K g row.bin.key none))
      go mask_keep e = rw e (Leads-ext K g.res_id F F _ _ tt as_was (Leads-pure K g.res_id F tt))

  pub Quiet-lookup_row : (r : ℕ) (p : Row) → Quiet K r (lookup_row K p)
  unfolding lookup_row
  Quiet-lookup_row r p = record { run = λ w own. (λ q k. K.lookup_keeps p w.kernel q, own) }

  Follows-remember :
      (live : Option ℕ) (had : Bool) (flags : ℕ) (row : TempRow) (F : Contents)
      → RowLeads F (remember K live had flags row) Any F
  unfolding Follows
  Follows-remember live had flags row F =
      RowLeads-set_row F _ (λ r. (refl, refl, refl, refl, refl, λ e. e))

  RowLeads-mark :
      (live found : Option ℕ) (row : TempRow) (F : Contents)
      → RowLeads F (mark_runtime K live found row) Any F
  RowLeads-mark live none row F =
      RowLeads-then F F F _ _ Any (RowLeads-Quiet F _ (Quiet-put_row K g.res_id _ _ refl))
        (Follows-remember live false 0 row F)
  RowLeads-mark live (some flags) row F = RowLeads-if F F _ _ _ (RowLeads-pure F) (
      RowLeads-then F F F _ _ Any (RowLeads-Quiet F _ (Quiet-put_row K g.res_id _ _ refl))
        (Follows-remember live true flags row F))

  RowLeads-trust :
      (live : Option ℕ) (row : TempRow) (F : Contents)
      → RowLeads F (trust_temp_runtime K live row) Any F
  unfolding trust_temp_runtime
  RowLeads-trust none row F = RowLeads-throw F F _ Any
  RowLeads-trust (some t) row F = RowLeads-if F F _ _ _ (RowLeads-pure F) (
      RowLeads-bind F F F _ _ Any Any (RowLeads-Quiet F _ (Quiet-lookup_row g.res_id _))
        (λ found _. RowLeads-mark (some t) found row F))

  -- The rows of a resource after its row is written, in either order.
  either_order :
      (row : TempRow) (F : Contents) (q : Row)
      → let a = action_of g row.bin.key in
        let e = events_of g row.bin.key in
        upd (upd F a (granted_action row (F a))) e (granted_mask row (F e)) q ≡ granted g row F q
  either_order row F (action_row k) = refl
  either_order row F (event_row k) = refl
  either_order row F _ = refl

  abbrev masked : TempRow → Contents → Contents
  masked row F = upd F (events_of g row.bin.key) (granted_mask row (F (events_of g row.bin.key)))

  abbrev acted : TempRow → Contents → Contents
  acted row F = upd F (action_of g row.bin.key) (granted_action row (F (action_of g row.bin.key)))

  mask_only :
      (row : TempRow) (F : Contents)
      → row.new_action ≡ 0
      → (q : Row) → masked row F q ≡ granted g row F q
  mask_only row F e (action_row k) =
      elim (Bool-cases (row_beq (action_of g row.bin.key) (action_row k))) [
        | inl hit ↦
            rw (hit, (row_beq_iff (action_of g row.bin.key) (action_row k)).0 hit) (ground arith)
        | inr miss ↦ rw miss refl
      ]
  mask_only row F e (event_row k) = refl
  mask_only row F e _ = refl

  pub RowLeads-write :
      (live : Option ℕ) (row : TempRow) (F : Contents)
      → is_blacklist g.mode ≡ false
      → Restorable g row
      → RowLeads F (write_temp_row K g live row) Any (granted g row F)
  unfolding write_temp_row when
  RowLeads-write live row F h (inl (allow, lacks, own)) =
      let off : (row.new_action == guard_block) ≡ false = ground arith in
      let on : (row.new_action == guard_allow) ≡ true = ground arith in
      let value : granted_action row (F (action_of g row.bin.key)) ≡ some guard_allow =
        ground arith in
      rw (off, on)
        (RowLeads-then F F _ _ _ Any (RowLeads-pure F) (
          RowLeads-then F (masked row F) _ _ _ Any (RowLeads-Unit F _ _ (Leads-write_mask F row)) (
            RowLeads-then (masked row F) (masked row F) _ _ _ Any (RowLeads-trust live row _) (
              RowLeads-Unit _ _ _ (
                Leads-ext K g.res_id _ _ _ _ tt
                  (λ q. ap (λ v. upd (masked row F) (action_of g row.bin.key) v q) (sym value))
                  (Leads-Sets K g.res_id _ _ _ _
                    (Sets-put_exe_action K g row.bin.key guard_allow h)))))))
  RowLeads-write live row F h (inr (inl (block, had, allow, own, sound))) =
      let on : (row.new_action == guard_block) ≡ true = ground arith in
      let off : (row.new_action == guard_allow) ≡ false = ground arith in
      let value : granted_action row (F (action_of g row.bin.key)) ≡ some guard_block =
        ground arith in
      rw (off, on)
        (RowLeads-then F (acted row F) _ _ _ Any
          (RowLeads-Unit _ _ _ (
            Leads-ext K g.res_id _ _ _ _ tt
              (λ q. ap (λ v. upd F (action_of g row.bin.key) v q) (sym value))
              (Leads-Sets K g.res_id _ _ _ _ (Sets-put_exe_action K g row.bin.key guard_block h))))
          (RowLeads-then (acted row F) (granted g row F) _ _ _ Any
            (RowLeads-Unit _ _ _ (
              Leads-ext K g.res_id _ _ _ _ tt (either_order row F)
                (Leads-write_mask (acted row F) row)))
            (RowLeads-pure _)))
  RowLeads-write live row F h (inr (inr nought)) =
      let on : (row.new_action == guard_block) ≡ false = ground arith in
      let off : (row.new_action == guard_allow) ≡ false = ground arith in
      rw (off, on)
        (RowLeads-then F F _ _ _ Any (RowLeads-pure F) (
          RowLeads-then F (granted g row F) _ _ _ Any
            (RowLeads-Unit _ _ _
              (Leads-ext K g.res_id _ _ _ _ tt (mask_only row F nought) (Leads-write_mask F row)))
            (RowLeads-pure _)))
