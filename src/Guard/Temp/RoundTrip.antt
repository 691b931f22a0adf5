-- ===== src/Guard/Temp/RoundTrip.antt =====
-- internal/guard/tempgrant.go: a whole grant applied, and then revoked.
use app_listener.Base.{
  ℕ, ◌≡◌, refl, sym, ap, ◌∙◌, Bool, true, false, Option, none, some, List, [], ◌∷◌, ◌++◌, nat_eq,
  if◌then◌else◌,
}
use app_listener.Base.State.{Error, row_changed, Result, ok, err, throw, ◌>>=◌, ◌>>◌, bind_cases}
use app_listener.Guard.Keys.{real}
use app_listener.Guard.Kernel.{Kernel, Row, trust_row}
use app_listener.Guard.Engine.{World, put_row, delete_row}
use app_listener.Guard.Engine.Quiet.{
  IsOwn, Quiet, All, private_row, Quiet-pure, Quiet-bind, Quiet-on_engine, Quiet-put_row,
  Quiet-delete_row,
}
use app_listener.Guard.Engine.Frame.{Quiet-if}
use app_listener.Guard.Rows.{
  GuardState, ExeRow, exe_row, exe_row_beq, exe_row_beq_iff, action_of, events_of, is_blacklist,
  read_exe_row,
}
use app_listener.Guard.Rows.Holds.{Contents, Holds, Holds-ext, Leads-read_exe_row}
use app_listener.Guard.Temp.{TempBinary, TempRow, TempGrant, MaskOp}
use app_listener.Guard.Temp.Grant.{
  RowWorld, RowAct, on_world, set_row, write_temp_row, apply_temp_row, apply_rows, finish_apply,
  apply_unless, apply, revoke_unless, revoke, put_trust_back, untrust_temp_runtime, errors_of,
  undo_row, revoke_row, revoke_rows,
}
use app_listener.Guard.Temp.Restore.{granted, Restorable, Leads-restore_temp_row}
use app_listener.Guard.Temp.RowLeads.{Follows, RowLeads, Any, RowLeads-write, Quiet-lookup_row}

module _ (K : Kernel) (g : GuardState) where
  -- `applyTempRow` once it has found the row as it was planned.
  RowLeads-mark_applied :
      (live : Option ℕ) (row : TempRow) (F G : Contents) (s : RowWorld K.State) (u : Unit {0})
      → RowLeads K g F (write_temp_row K g live row) (Any K g) G
      → Holds K g.res_id F s.world
      → (((set_row K λ r. record r { applied = true }) >> write_temp_row K g live row) s).0 ≡ ok u
      → let s' =
          (((set_row K λ r. record r { applied = true }) >> write_temp_row K g live row) s).1 in
        Holds K g.res_id G s'.world × Follows s.row s'.row × (s'.row.applied ≡ true)
  unfolding ◌>>◌ ◌>>=◌ set_row Follows
  RowLeads-mark_applied live row F G s u l h good =
      let (x, h', (b, p, n, o, m, a)) =
        l.run (record s { row = record s.row { applied = true } }) u h good in
      (h', (b, p, n, o, m, λ _. a refl), a refl)

  -- A row that was written: it was as planned, and now holds what was granted.
  abbrev Written : TempRow → Contents → RowWorld K.State → Type 0
  Written row F s =
      (row.prior ≡ exe_row (F (action_of g row.bin.key)) (F (events_of g row.bin.key)))
      × Holds K g.res_id (granted g row F) s.world
      × Follows row s.row
      × (s.row.applied ≡ true)

  abbrev write_if : Option ℕ → TempRow → Bool → RowAct K (Unit {0})
  write_if live row same =
      if same
      then (do set_row K λ r. record r { applied = true }; write_temp_row K g live row)
      else throw row_changed

  apply_found :
      (live : Option ℕ) (row : TempRow) (F : Contents) (w : World K.State) (u : Unit {0})
      (cur : ExeRow)
      → is_blacklist g.mode ≡ false
      → Restorable g row
      → cur ≡ exe_row (F (action_of g row.bin.key)) (F (events_of g row.bin.key))
      → Holds K g.res_id F w
      → (same : Bool) → exe_row_beq cur row.prior ≡ same
      → (write_if live row same (record { world = w; row = row })).0 ≡ ok u
      → Written row F (write_if live row same (record { world = w; row = row })).1
  unfolding throw
  apply_found live row F w u cur mode r is h true same good =
      let (h', kept, done) =
        RowLeads-mark_applied live row F (granted g row F) _ u
          (RowLeads-write K g live row F mode r) h good in
      (sym ((exe_row_beq_iff cur row.prior).0 same) ∙ is, h', kept, done)
  apply_found live row F w u cur mode r is h false same bad = cc

  apply_row :
      (live : Option ℕ) (row : TempRow) (F : Contents) (w : World K.State) (u : Unit {0})
      → is_blacklist g.mode ≡ false
      → Restorable g row
      → Holds K g.res_id F w
      → (apply_temp_row K g live row (record { world = w; row = row })).0 ≡ ok u
      → Written row F (apply_temp_row K g live row (record { world = w; row = row })).1
  unfolding apply_temp_row on_world
  apply_row live row F w u mode r h =
      bind_cases (λ p. p.0 ≡ ok u → Written row F p.1) (on_world K (read_exe_row K g row.bin.key)) _
        (record { world = w; row = row })
        (λ cur found.
          let (is, h') = (Leads-read_exe_row K g F row.bin.key).run w cur h found in
          apply_found live row F _ u cur mode r is h' (exe_row_beq cur row.prior) refl)
        (λ e _ bad. cc)

  -- A row as it stands after `Apply` is taken back as the row that was planned.
  granted-Follows :
      (row row' : TempRow) (F : Contents)
      → Follows row row'
      → (q : Row) → granted g row F q ≡ granted g row' F q
  unfolding Follows
  granted-Follows row row' F (b, p, n, o, m, a) q = sym (
      ap
        (λ (x : TempBinary × ℕ × MaskOp × ℕ).
          granted g (record row { bin = x.0; new_action = x.1; mask_op = x.2; new_mask = x.3 }) F q)
        (λ i. (b i, n i, o i, m i)))

  Restorable-Follows :
      (row row' : TempRow) → Follows row row' → Restorable g row → Restorable g row'
  unfolding Follows
  Restorable-Follows row row' (b, p, n, o, m, a) r = rw (b, n, p) r

  Quiet-put_trust_back :
      (row : TempRow) (cur : Option ℕ) → Quiet K g.res_id (put_trust_back K row cur)
  Quiet-put_trust_back row none = Quiet-pure K g.res_id tt
  Quiet-put_trust_back row (some cur) = Quiet-if K g.res_id _ _ (if_quiet row.trust_had)
    where
      if_quiet :
          (b : Bool)
          → Quiet K g.res_id (
              if b
              then put_row K (trust_row (real row.bin.key)) row.trust_prior
              else delete_row K (trust_row (real row.bin.key)))
      if_quiet true = Quiet-put_row K g.res_id _ _ refl
      if_quiet false = Quiet-delete_row K g.res_id _ refl

  Quiet-untrust :
      (live : Option ℕ) (row : TempRow) → Quiet K g.res_id (untrust_temp_runtime K live row)
  unfolding untrust_temp_runtime
  Quiet-untrust live row = Quiet-on_engine K g.res_id _ λ e own.
      Quiet-if K g.res_id _ _
        (Quiet-bind K g.res_id _ _ (Quiet-lookup_row K g g.res_id _) (Quiet-put_trust_back row))

  no_errors : (r : Result (Unit {0})) (es : List Error) → errors_of K r ++ es ≡ [] → r ≡ ok tt
  no_errors (ok u) es e = refl
  no_errors (err x) es e = cc

  -- One row of a revocation that reports no error.
  revoke_row_lem :
      (live : Option ℕ) (row row' : TempRow) (F : Contents) (w : World K.State)
      → is_blacklist g.mode ≡ false
      → g.stopped ≡ false
      → Restorable g row
      → row.prior ≡ exe_row (F (action_of g row.bin.key)) (F (events_of g row.bin.key))
      → Follows row row'
      → row'.applied ≡ true
      → Holds K g.res_id (granted g row F) w
      → (revoke_row K g live row' w).0 ≡ []
      → Holds K g.res_id F (revoke_row K g live row' w).1
  unfolding revoke_row Follows
  revoke_row_lem live row row' F w mode running r prior kept done h =
      let (b, p, n, o, m, a) = kept in
      let prior' : row'.prior
          ≡ exe_row (F (action_of g row'.bin.key)) (F (events_of g row'.bin.key)) =
        rw (p, b) prior in
      let h' : Holds K g.res_id (granted g row' F) w =
        Holds-ext K g.res_id _ _ w (granted-Follows row row' F kept) h in
      go row'.applied g.stopped done running prior' h'
    where
      go :
          (applied stopped : Bool)
          → applied ≡ true
          → stopped ≡ false
          → row'.prior ≡ exe_row (F (action_of g row'.bin.key)) (F (events_of g row'.bin.key))
          → Holds K g.res_id (granted g row' F) w
          → (undo_row K applied stopped g live row' w).0 ≡ []
          → Holds K g.res_id F (undo_row K applied stopped g live row' w).1
      go true false e f prior' h' none_left =
          let back =
            (Leads-restore_temp_row K g row' F mode (Restorable-Follows row row' kept r) prior').run
              w tt h' (no_errors _ _ none_left) in
          let (same, own) = (Quiet-untrust live row').run _ back.1.own in
          record { own = own; at = λ q priv. same q priv ∙ back.1.at q priv }
      go true true e f prior' h' none_left = cc
      go false stopped e f prior' h' none_left = cc

  abbrev Intact : List TempRow → Type 0
  Intact = All (Restorable g)

  -- What a grant that was applied over contents `F` is: rows that hold, and that go back to `F`.
  abbrev Undoable : Option ℕ → Contents → List TempRow → World K.State → Type 0
  Undoable live F rows w =
      (G : Contents) × Holds K g.res_id G w
      × ((w' : World K.State)
          → Holds K g.res_id G w'
          → (revoke_rows K g live rows w').0 ≡ []
          → Holds K g.res_id F (revoke_rows K g live rows w').1)

  no_errors_left : (es fs : List Error) → es ++ fs ≡ [] → es ≡ []
  no_errors_left [] fs e = refl
  no_errors_left (x ∷ es) fs e = cc

  no_errors_right : (es fs : List Error) → es ++ fs ≡ [] → fs ≡ []
  no_errors_right [] fs e = e
  no_errors_right (x ∷ es) fs e = cc

  apply_rows-undo :
      (live live' : Option ℕ) (rows : List TempRow) (F : Contents) (w : World K.State)
      (u : Unit {0})
      → is_blacklist g.mode ≡ false
      → g.stopped ≡ false
      → All (Restorable g) rows
      → Holds K g.res_id F w
      → (apply_rows K g live rows w).0 ≡ ok u
      → Undoable live' F (apply_rows K g live rows w).1 (apply_rows K g live rows w).2
  unfolding apply_rows revoke_rows
  apply_rows-undo live live' [] F w u mode running ok_rows h good = (F, h, λ w' h' none_left. h')
  apply_rows-undo live live' (row ∷ rest) F w u mode running (r, more) h good =
      go first.0 refl
        (λ G w' h' end. apply_rows-undo live live' rest G w' u mode running more h' end) good
    where
      first : Result (Unit {0}) × RowWorld K.State
      first = apply_temp_row K g live row (record { world = w; row = row })

      outcome : Result (Unit {0}) → Result (Unit {0}) × List TempRow × World K.State
      outcome (ok v) =
          let (r', rest', w') = apply_rows K g live rest first.1.world in
          (r', first.1.row ∷ rest', w')
      outcome (err e) = (err e, first.1.row ∷ rest, first.1.world)

      go :
          (x : Result (Unit {0}))
          → first.0 ≡ x
          → ((G : Contents) (w' : World K.State)
              → Holds K g.res_id G w'
              → (apply_rows K g live rest w').0 ≡ ok u
              → Undoable live' G (apply_rows K g live rest w').1 (apply_rows K g live rest w').2)
          → (outcome x).0 ≡ ok u
          → Undoable live' F (outcome x).1 (outcome x).2
      go (err e) q ih bad = cc
      go (ok v) q ih end =
          let (prior, h', kept, done) = apply_row live row F w v mode r h q in
          let (G, holds, back) = ih (granted g row F) first.1.world h' end in
          (
            G,
            holds,
            λ w' at none_left.
                revoke_row_lem live' row first.1.row F _ mode running r prior kept done
                  (back w' at (no_errors_left _ _ none_left)) (no_errors_right _ _ none_left),
          )

  -- A grant applied and later revoked: on a running guard that is no blacklist, with rows that can be
  -- taken back, if `Apply` succeeds and `Revoke` later reports no error, every row of the resource
  -- holds what it held before. In between, anything may happen that leaves the resource's rows alone.
  pub revoke-apply :
      (live live' : Option ℕ) (t : TempGrant) (w later : World K.State)
      → is_blacklist g.mode ≡ false
      → g.stopped ≡ false
      → t.revoked ≡ false
      → All (Restorable g) t.rows
      → IsOwn g.res_id w.engine
      → IsOwn g.res_id later.engine
      → (apply K g live t w).0 ≡ ok tt
      → ((q : Row)
          → private_row g.res_id q ≡ true
          → K.row later.kernel q ≡ K.row (apply K g live t w).2.kernel q)
      → (revoke K g live' (apply K g live t w).1 later).0 ≡ []
      → (q : Row) → private_row g.res_id q ≡ true
      → K.row (revoke K g live' (apply K g live t w).1 later).2.kernel q ≡ K.row w.kernel q
  unfolding apply revoke
  revoke-apply live live' t w later mode running fresh rows own own' = started g.stopped running
    where
      Back : Result (Unit {0}) × TempGrant × World K.State → Type 0
      Back p =
          p.0 ≡ ok tt
          → ((q : Row) → private_row g.res_id q ≡ true → K.row later.kernel q ≡ K.row p.2.kernel q)
          → (revoke_unless K p.1.revoked g live' p.1 later).0 ≡ []
          → (q : Row) → private_row g.res_id q ≡ true
          → K.row (revoke_unless K p.1.revoked g live' p.1 later).2.kernel q ≡ K.row w.kernel q

      now : Result (Unit {0}) × List TempRow × World K.State
      now = apply_rows K g live t.rows w

      undone :
          (revoked : Bool)
          → revoked ≡ false
          → Undoable live' (K.row w.kernel) now.1 now.2
          → ((q : Row)
              → private_row g.res_id q ≡ true
              → K.row later.kernel q ≡ K.row now.2.kernel q)
          → (revoke_unless K revoked g live' (record t { rows = now.1 }) later).0 ≡ []
          → (q : Row) → private_row g.res_id q ≡ true
          → K.row (revoke_unless K revoked g live' (record t { rows = now.1 }) later).2.kernel q
            ≡ K.row w.kernel q
      undone false e (G, holds, back) same none_left q priv =
          (back later (record { own = own'; at = λ q priv. same q priv ∙ holds.at q priv })
              none_left).at
            q priv
      undone true e u same none_left q priv = cc

      finished : (r : Result (Unit {0})) → now.0 ≡ r → Back (finish_apply K g live t r now.1 now.2)
      finished (err e) is = λ bad same none_left q priv. cc
      finished (ok u) is = λ good. undone t.revoked fresh (
          apply_rows-undo live live' t.rows (K.row w.kernel) w tt mode running rows
            (record { own = own; at = λ q priv. refl }) is)

      started : (b : Bool) → b ≡ false → Back (apply_unless K b g live t w)
      started false e = finished now.0 refl
      started true e = cc
