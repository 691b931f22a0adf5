-- ===== src/Guard/Engine/Quiet.antt =====
-- The rows that the engine's own bookkeeping leaves alone: those of a resource in a live slot.
use app_listener.Base.{
  ℕ, ◌≡◌, refl, sym, ap, ◌∙◌, ◌≢◌, inl, inr, Bool, true, false, Option, List, [], ◌∷◌, ◌==◌, nat_eq,
  Bool-cases, arith,
}
use app_listener.Base.Assoc.{has_key}
use app_listener.Base.State.{bind_cases, pure, ◌>>=◌, ◌>>◌, when, each}
use app_listener.Guard.Kernel.{
  Kernel, Row, action_row, event_row, trust_row, inode_row, successor_row, union_row, member_row,
  config_row, multicall_row, mc_name_row, row_eq, row_beq, row_beq_iff,
}
use app_listener.Guard.Engine.{Engine, World, Act, put_row, delete_row, set_engine, on_engine}

-- The rows that belong to resource `r`, and those that no resource's view writes.
abbrev pub private_row : ℕ → Row → Bool
private_row r (action_row k) = k.res == r
private_row r (union_row k) = false
private_row r (member_row s m) = false
private_row r (config_row id) = false
private_row r (successor_row id) = true
private_row r (multicall_row k) = false
private_row r (mc_name_row k n) = false
private_row r (event_row k) = true
private_row r (trust_row k) = false
private_row r (inode_row k) = true

abbrev pub All {ℓ κ} : {A : Type ℓ} → (A → Type κ) → List A → Type κ
All P [] = Unit
All P (x ∷ xs) = P x × All P xs

true≢false : true ≢ false
true≢false e = cc

-- No taint set has slot `r`.
abbrev pub Apart {ℓ} : {A : Type ℓ} → ℕ → List (A × ℕ) → Type 0
Apart r [] = Unit
Apart r ((key, slot) ∷ sets) = (slot ≢ r) × Apart r sets

-- Slot `r` is a live resource's, and no taint set has it.
pub record IsOwn (r : ℕ) (e : Engine) : Type 0 where
  pub live : has_key r e.slots ≡ true
  pub apart : Apart r e.sets
  pub real_slot : r ≢ 0

module _ (K : Kernel) (r : ℕ) where
  abbrev pub rows : World K.State → Row → Option ℕ
  rows w = K.row w.kernel

  -- An action that leaves the rows of `r` alone and keeps the slot its own.
  pub record Quiet {A : Type 0} (m : Act K A) : Type 0 where
    pub run :
        (w : World K.State)
        → IsOwn r w.engine
        → ((q : Row) → private_row r q ≡ true → rows (m w).1 q ≡ rows w q) × IsOwn r (m w).1.engine

  pub Quiet-pure : {A : Type 0} (a : A) → Quiet (pure a)
  unfolding pure
  Quiet-pure a = record { run = λ w own. (λ q h. refl, own) }

  pub Quiet-bind :
      {A B : Type 0} (m : Act K A) (f : A → Act K B)
      → Quiet m
      → ((a : A) → Quiet (f a))
      → Quiet (m >>= f)
  Quiet-bind m f qm qf = record {
    run = λ w own.
        let (kept, own') = qm.run w own in
        bind_cases
          (λ p. ((q : Row) → private_row r q ≡ true → rows p.1 q ≡ rows w q) × IsOwn r p.1.engine) m
          f w
          (λ a e.
            let (more, own'') = (qf a).run (m w).1 own' in (λ q h. more q h ∙ kept q h, own''))
          (λ x e. (kept, own'));
  }

  pub Quiet-then :
      {B : Type 0} (m : Act K (Unit {0})) (k : Act K B) → Quiet m → Quiet k → Quiet (m >> k)
  unfolding ◌>>◌
  Quiet-then m k qm qk = Quiet-bind m (λ _. k) qm (λ _. qk)

  pub Quiet-each {ℓ κ} :
      {A : Type ℓ} (P : A → Type κ) (f : A → Act K (Unit {0})) (xs : List A)
      → All P xs
      → ((a : A) → P a → Quiet (f a))
      → Quiet (each f xs)
  unfolding each
  Quiet-each P f [] h q = Quiet-pure tt
  Quiet-each P f (x ∷ xs) h q = Quiet-then (f x) (each f xs) (q x h.0) (Quiet-each P f xs h.1 q)

  pub Quiet-on_engine :
      {B : Type 0} (f : Engine → Act K B)
      → ((e : Engine) → IsOwn r e → Quiet (f e))
      → Quiet (on_engine K f)
  unfolding on_engine
  Quiet-on_engine f h = record { run = λ w own. (h w.engine own).run w own }

  pub Quiet-set_engine :
      (f : Engine → Engine) → ((e : Engine) → IsOwn r e → IsOwn r (f e)) → Quiet (set_engine K f)
  unfolding set_engine
  Quiet-set_engine f h = record { run = λ w own. (λ q p. refl, h w.engine own) }

  pub Quiet-when : (b : Bool) (m : Act K (Unit {0})) → Quiet m → Quiet (when b m)
  unfolding when
  Quiet-when true m h = h
  Quiet-when false m h = Quiet-pure tt

  private_row-ne :
      (p q : Row) → private_row r p ≡ false → private_row r q ≡ true → row_beq p q ≡ false
  private_row-ne p q h k = elim (Bool-cases (row_beq p q)) [
    | inl e ↦ absurd (true≢false (sym k ∙ ap (private_row r) (sym ((row_beq_iff p q).0 e)) ∙ h))
    | inr n ↦ n
  ]

  pub Quiet-put_row : (p : Row) (v : ℕ) → private_row r p ≡ false → Quiet (put_row K p v)
  unfolding put_row
  Quiet-put_row p v h = record {
    run = λ w own. (λ q k. ground (arith, K.put_row p v w.kernel q, private_row-ne p q h k), own);
  }

  pub Quiet-delete_row : (p : Row) → private_row r p ≡ false → Quiet (delete_row K p)
  unfolding delete_row
  Quiet-delete_row p h = record {
    run = λ w own. (λ q k. ground (arith, K.delete_row p w.kernel q, private_row-ne p q h k), own);
  }
