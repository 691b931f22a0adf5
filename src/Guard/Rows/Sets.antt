-- ===== src/Guard/Rows/Sets.antt =====
-- What a write of one row does to the rows of its resource, whatever the engine does besides.
use app_listener.Base.{
  ℕ, ◌≡◌, ◌∙◌, inl, inr, Bool, true, false, ◌&&◌, ◌||◌, Option, none, some, ◌==◌, nat_eq,
  Bool-cases, arith,
}
use app_listener.Base.State.{Result, ok, ◌>>◌, when, bind_cases}
use app_listener.Guard.Keys.{InodeKey, tagged, real, guard_allow, guard_allow_root}
use app_listener.Guard.Kernel.{Kernel, Row, row_eq, row_beq, row_beq_iff}
use app_listener.Guard.Engine.{World, Act, put_row, delete_row}
use app_listener.Guard.Engine.Quiet.{
  IsOwn, Quiet, private_row, rows, Quiet-pure, Quiet-then, Quiet-when,
}
use app_listener.Guard.Engine.Frame.{Quiet-note_allow, Quiet-note_deny}
use app_listener.Guard.Multicall.{Quiet-ensure_multicall}
use app_listener.Guard.Rows.{
  GuardState, action_of, events_of, is_blacklist, put_exe_action, note_action, block_unattested,
  restore_mask,
}

module _ (K : Kernel) (r : ℕ) where
  -- An action that, of the rows of `r`, changes only `p`, and leaves `v` there when it succeeds.
  pub record Sets (p : Row) (v : Option ℕ) (m : Act K (Unit {0})) : Type 0 where
    pub frame :
        (w : World K.State)
        → IsOwn r w.engine
        → (q : Row) → private_row r q ≡ true
        → row_beq p q ≡ false
        → rows K r (m w).1 q ≡ rows K r w q
    pub result : (w : World K.State) → IsOwn r w.engine → (m w).0 ≡ ok tt → rows K r (m w).1 p ≡ v
    pub own : (w : World K.State) → IsOwn r w.engine → IsOwn r (m w).1.engine

  pub Sets-put_row : (p : Row) (v : ℕ) → Sets p (some v) (put_row K p v)
  unfolding put_row
  Sets-put_row p v = record {
    frame = λ w own q h n. ground (arith, K.put_row p v w.kernel q);
    result = λ w own e. ground (arith, K.put_row p v w.kernel p, row_beq_iff p p);
    own = λ w own. own;
  }

  pub Sets-delete_row : (p : Row) → Sets p none (delete_row K p)
  unfolding delete_row
  Sets-delete_row p = record {
    frame = λ w own q h n. ground (arith, K.delete_row p w.kernel q);
    result = λ w own e. ground (arith, K.delete_row p w.kernel p, row_beq_iff p p);
    own = λ w own. own;
  }

  pub Quiet-Sets :
      (p : Row) (v : Option ℕ) (m k : Act K (Unit {0}))
      → Quiet K r m
      → Sets p v k
      → Sets p v (m >> k)
  unfolding ◌>>◌
  Quiet-Sets p v m k q s = record {
    frame = λ w own row h n.
        let (kept, own') = q.run w own in
        bind_cases (λ x. rows K r x.1 row ≡ rows K r w row) m (λ _. k) w
          (λ _ _. s.frame (m w).1 own' row h n ∙ kept row h) (λ _ _. kept row h);
    result = λ w own.
        let (kept, own') = q.run w own in
        bind_cases (λ x. x.0 ≡ ok tt → rows K r x.1 p ≡ v) m (λ _. k) w
          (λ _ _ e. s.result (m w).1 own' e) (λ x _ e. cc);
    own = λ w own.
        let (kept, own') = q.run w own in
        bind_cases (λ x. IsOwn r x.1.engine) m (λ _. k) w (λ _ _. s.own (m w).1 own') (λ _ _. own');
  }

  result_unit : (x : Result (Unit {0})) (u : Unit {0}) → x ≡ ok u → x ≡ ok tt
  result_unit x u e = e

  pub Sets-Quiet :
      (p : Row) (v : Option ℕ) (m k : Act K (Unit {0}))
      → private_row r p ≡ true
      → Sets p v m
      → Quiet K r k
      → Sets p v (m >> k)
  unfolding ◌>>◌
  Sets-Quiet p v m k priv s q = record {
    frame = λ w own row h n.
        let own' = s.own w own in
        bind_cases (λ x. rows K r x.1 row ≡ rows K r w row) m (λ _. k) w
          (λ _ _. (q.run (m w).1 own').0 row h ∙ s.frame w own row h n)
          (λ _ _. s.frame w own row h n);
    result = λ w own.
        let own' = s.own w own in
        bind_cases (λ x. x.0 ≡ ok tt → rows K r x.1 p ≡ v) m (λ _. k) w
          (λ u good e. (q.run (m w).1 own').0 p priv ∙ s.result w own (result_unit _ u good))
          (λ x _ e. cc);
    own = λ w own.
        let own' = s.own w own in
        bind_cases (λ x. IsOwn r x.1.engine) m (λ _. k) w (λ _ _. (q.run (m w).1 own').1)
          (λ _ _. own');
  }

module _ (K : Kernel) (g : GuardState) where
  Quiet-note_action : (k : InodeKey) (a : ℕ) → Quiet K g.res_id (note_action K g k a)
  Quiet-note_action k a = elim (Bool-cases ((a == guard_allow) || (a == guard_allow_root))) [
    | inl allow ↦ rw allow (Quiet-note_allow K g.res_id g.res_id k a)
    | inr deny ↦ rw deny (Quiet-note_deny K g.res_id g.res_id k)
  ]

  Quiet-block_unattested :
      (k : InodeKey) (a : ℕ)
      → is_blacklist g.mode ≡ false
      → Quiet K g.res_id (block_unattested K g k a)
  unfolding when
  Quiet-block_unattested k a h = rw (off (a == 1) h) (Quiet-pure K g.res_id tt)
    where
      off : (b : Bool) → is_blacklist g.mode ≡ false → (b && is_blacklist g.mode) ≡ false
      off b h = ground arith

  -- Outside a blacklist, `putExeAction` writes one row of the guard's own.
  pub Sets-put_exe_action :
      (k : InodeKey) (a : ℕ)
      → is_blacklist g.mode ≡ false
      → Sets K g.res_id (action_of g k) (some a) (put_exe_action K g k a)
  unfolding put_exe_action
  Sets-put_exe_action k a h =
      Quiet-Sets K g.res_id _ _ _ _
        (Quiet-when K g.res_id (tagged k) _ (
          Quiet-then K g.res_id _ _ (Quiet-ensure_multicall K g.res_id (real k))
            (Quiet-block_unattested k a h)))
        (Sets-Quiet K g.res_id _ _ _ _ (ground arith) (Sets-put_row K g.res_id _ a)
          (Quiet-note_action k a))

  pub Sets-restore_mask :
      (k : InodeKey) (m : Option ℕ) → Sets K g.res_id (events_of g k) m (restore_mask K g k m)
  unfolding restore_mask
  Sets-restore_mask k none = Sets-delete_row K g.res_id _
  Sets-restore_mask k (some m) = Sets-put_row K g.res_id _ m
