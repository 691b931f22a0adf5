-- ===== src/Guard/Rows/Holds.antt =====
-- What the rows of a resource hold, as a function, and how successful actions change it.
use app_listener.Base.{
  ℕ, ◌≡◌, refl, sym, ◌∙◌, inl, inr, true, Option, none, some, nat_eq, if◌then◌else◌, Bool-cases,
  arith,
}
use app_listener.Base.State.{kernel_fault, ok, err, pure, ◌>>=◌, ◌>>◌, bind_cases}
use app_listener.Guard.Keys.{InodeKey}
use app_listener.Guard.Kernel.{
  Kernel, Row, row_beq, row_beq_iff, Found, found, absent, fault, Answers,
}
use app_listener.Guard.Engine.{World, Act, lookup_row}
use app_listener.Guard.Engine.Quiet.{IsOwn, Quiet, private_row, rows}
use app_listener.Guard.Rows.{GuardState, exe_row, action_of, events_of, read_exe_row}
use app_listener.Guard.Rows.Sets.{Sets}

abbrev pub Contents : Type 0
Contents = Row → Option ℕ

-- The contents with `v` in row `p`.
abbrev pub upd : Contents → Row → Option ℕ → Contents
upd F p v q = if row_beq p q then v else F q

module _ (K : Kernel) (r : ℕ) where
  -- The rows of `r`, a live resource, hold `F`.
  pub record Holds (F : Contents) (w : World K.State) : Type 0 where
    pub own : IsOwn r w.engine
    pub at : (q : Row) → private_row r q ≡ true → rows K r w q ≡ F q

  -- A successful run takes contents `F` to `G`.
  pub record Leads {A : Type 0} (F : Contents) (m : Act K A) (a : A) (G : Contents) : Type 0 where
    pub run : (w : World K.State) (x : A) → Holds F w → (m w).0 ≡ ok x → (x ≡ a) × Holds G (m w).1

  pub Holds-ext :
      (F G : Contents) (w : World K.State) → ((q : Row) → F q ≡ G q) → Holds F w → Holds G w
  Holds-ext F G w e h = record { own = h.own; at = λ q p. h.at q p ∙ e q }

  pub Leads-ext :
      {A : Type 0} (F G G' : Contents) (m : Act K A) (a : A)
      → ((q : Row) → G q ≡ G' q)
      → Leads F m a G
      → Leads F m a G'
  Leads-ext F G G' m a e l = record {
    run = λ w x h good. let (v, h') = l.run w x h good in (v, Holds-ext G G' _ e h');
  }

  pub Leads-pure : {A : Type 0} (F : Contents) (a : A) → Leads F (pure a) a F
  unfolding pure
  Leads-pure F a = record { run = λ w x h good. (ground arith, h) }

  pub Leads-bind :
      {A B : Type 0} (F G H : Contents) (m : Act K A) (f : A → Act K B) (a : A) (b : B)
      → Leads F m a G
      → Leads G (f a) b H
      → Leads F (m >>= f) b H
  Leads-bind F G H m f a b l l' = record {
    run = λ w y h.
        bind_cases (λ p. p.0 ≡ ok y → (y ≡ b) × Holds H p.1) m f w
          (λ x good. let (e, h') = l.run w x h good in rw e (l'.run (m w).1 y h')) (λ e _ bad. cc);
  }

  pub Leads-then :
      {B : Type 0} (F G H : Contents) (m : Act K (Unit {0})) (k : Act K B) (b : B)
      → Leads F m tt G
      → Leads G k b H
      → Leads F (m >> k) b H
  unfolding ◌>>◌
  Leads-then F G H m k b l l' = Leads-bind F G H m (λ _. k) tt b l l'

  pub Leads-Quiet : (F : Contents) (m : Act K (Unit {0})) → Quiet K r m → Leads F m tt F
  Leads-Quiet F m q = record {
    run = λ w x h good.
        let (kept, own') = q.run w h.own in
        (refl, record { own = own'; at = λ row p. kept row p ∙ h.at row p });
  }

  pub Leads-Sets :
      (F : Contents) (p : Row) (v : Option ℕ) (m : Act K (Unit {0}))
      → Sets K r p v m
      → Leads F m tt (upd F p v)
  Leads-Sets F p v m s = record {
    run = λ w x h good. (
      refl,
      record {
        own = s.own w h.own;
        at = λ q priv. elim (Bool-cases (row_beq p q)) [
          | inl same ↦ rw (same, sym ((row_beq_iff p q).0 same)) (s.result w h.own good)
          | inr other ↦ rw other (s.frame w h.own q priv other ∙ h.at q priv)
        ];
      },
    );
  }

  -- A lookup that succeeds answers with what the row holds.
  pub Leads-lookup_row :
      (F : Contents) (p : Row) → private_row r p ≡ true → Leads F (lookup_row K p) (F p) F
  unfolding lookup_row
  Leads-lookup_row F p priv = record {
    run = λ w x h good. (
      answer (K.lookup p w.kernel).0 w x (K.lookup_answers p w.kernel) h good,
      record { own = h.own; at = λ q k. K.lookup_keeps p w.kernel q ∙ h.at q k },
    );
  }
    where
      answer :
          (f : Found) (w : World K.State) (x : Option ℕ)
          → Answers (K.row w.kernel p) f
          → Holds F w
          → (elim f [ found v ↦ ok (some v) | absent ↦ ok none | fault ↦ err kernel_fault ]) ≡ ok x
          → x ≡ F p
      answer (found v) w x a h good = ground (arith, h.at p priv)
      answer absent w x a h good = ground (arith, h.at p priv)
      answer fault w x a h good = cc

module _ (K : Kernel) (g : GuardState) where
  pub Leads-read_exe_row :
      (F : Contents) (k : InodeKey)
      → Leads K g.res_id F (read_exe_row K g k) (exe_row (F (action_of g k)) (F (events_of g k))) F
  unfolding read_exe_row
  Leads-read_exe_row F k =
      Leads-bind K g.res_id F F F _ _ _ _ (Leads-lookup_row K g.res_id F _ (ground arith)) (
        Leads-bind K g.res_id F F F _ _ _ _ (Leads-lookup_row K g.res_id F _ refl)
          (Leads-pure K g.res_id F _))
