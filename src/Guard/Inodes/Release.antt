-- ===== src/Guard/Inodes/Release.antt =====
-- internal/guard/engine.go, `releaseInodes`: which owner an inode's row has after a resource stops.
use app_listener.Base.{
  ℕ, ◌≡◌, refl, sym, ap, ◌∙◌, Bool, true, false, not, ◌||◌, leb, Option, none, some, List, [], ◌∷◌,
  ◌==◌, nat_eq, pair_eq, if◌then◌else◌, contains, distinct, Bool-cases, inl, inr, arith,
}
use app_listener.Base.Assoc.{lookup, delete, has_key, lookup-delete}
use app_listener.Base.State.{Result, ok, err, kernel_fault, ◌>>◌, each, pure, modify, bind_cases}
use app_listener.Guard.Keys.{InodeKey, inode_eq}
use app_listener.Guard.Kernel.{Kernel, inode_row, Deletion, deleted, missing, failed, after_delete}
use app_listener.Guard.Engine.{Engine, World, put_row, delete_row, set_engine, on_engine}
use app_listener.Guard.Inodes.{
  live_prev, give_row, release_inode, release_inodes, forget_prev, batch_inode_rows,
}
use app_listener.Guard.Inodes.Claims.{distinct-batch_inode_rows, contains-batch_inode_rows}

-- An owner that is worth the row: another resource, in one of the 512 slots, and alive.
abbrev heir : Engine → ℕ → Option ℕ → Option ℕ
heir e res none = none
heir e res (some p) = if (p == res) || (leb 512 p || not (has_key p e.slots)) then none else some p

-- The live owner that the resource displaced from the row; none where there is none.
abbrev pub owner_before : Engine → ℕ → InodeKey → Option ℕ
owner_before e res k = heir e res (lookup k e.prev_owner)

module _ (K : Kernel) where
  live_prev_lem : (e : Engine) (res : ℕ) (o : Option ℕ) → live_prev K e res o ≡ heir e res o
  live_prev_lem e res none = refl
  live_prev_lem e res (some p) = ground arith

  deleted_row :
      (d : Deletion) (hit : Bool) (o : Option ℕ)
      → ◌≡◌ {A = Result (Unit {0})} (elim d [ failed ↦ err kernel_fault | _ ↦ ok tt ]) (ok tt)
      → after_delete d hit o ≡ (if hit then none else o)
  deleted_row deleted hit o h = refl
  deleted_row missing hit o h = refl
  deleted_row failed hit o h = absurd cc

  put_done :
      (done hit : Bool) (v : ℕ) (o : Option ℕ)
      → ◌≡◌ {A = Result (Unit {0})} (if done then ok tt else err kernel_fault) (ok tt)
      → (if done then (if hit then some v else o) else o) ≡ (if hit then some v else o)
  put_done true hit v o h = refl
  put_done false hit v o h = absurd cc

  give_row-row :
      (j k : InodeKey) (o : Option ℕ) (w : World K.State)
      → (give_row K j o w).0 ≡ ok tt
      → K.row (give_row K j o w).1.kernel (inode_row k)
        ≡ (if j == k then o else K.row w.kernel (inode_row k))
  unfolding put_row delete_row
  give_row-row j k none w h =
      K.delete_row (inode_row j) w.kernel (inode_row k)
      ∙ deleted_row (K.delete (inode_row j) w.kernel).0 (j == k) _ h
  give_row-row j k (some p) w h =
      K.put_row (inode_row j) p w.kernel (inode_row k)
      ∙ put_done (K.put (inode_row j) p w.kernel).0 (j == k) p _ h

  give_row-engine :
      (j : InodeKey) (o : Option ℕ) (w : World K.State) → (give_row K j o w).1.engine ≡ w.engine
  unfolding put_row delete_row
  give_row-engine j none w = refl
  give_row-engine j (some p) w = refl

  -- The engine without its record of the key's owner.
  abbrev forget : InodeKey → Engine → Engine
  forget j e = record e { prev_owner = delete j e.prev_owner }

  release_inode-row :
      (res : ℕ) (j k : InodeKey) (w : World K.State)
      → (release_inode K res j w).0 ≡ ok tt
      → (K.row (release_inode K res j w).1.kernel (inode_row k)
          ≡ (if j == k then owner_before w.engine res j else K.row w.kernel (inode_row k)))
        × ((release_inode K res j w).1.engine ≡ forget j w.engine)
  unfolding ◌>>◌ set_engine on_engine modify
  release_inode-row res j k w =
      bind_cases
        (λ p.
          p.0 ≡ ok tt
          → (K.row p.1.kernel (inode_row k)
              ≡ (if j == k then owner_before w.engine res j else K.row w.kernel (inode_row k)))
            × (p.1.engine ≡ forget j w.engine))
        (give_row K j (live_prev K w.engine res (lookup j w.engine.prev_owner)))
        (λ u. set_engine K (forget j)) w
        (λ u given h. (
          give_row-row j k (live_prev K w.engine res (lookup j w.engine.prev_owner)) w given
              ∙ ap (λ o. if j == k then o else K.row w.kernel (inode_row k))
                  (live_prev_lem w.engine res (lookup j w.engine.prev_owner)),
          ap (forget j)
              (give_row-engine j (live_prev K w.engine res (lookup j w.engine.prev_owner)) w),
        ))
        (λ e given h. absurd cc)

  -- Another row's owner is still recorded.
  owner_before-forget :
      (e : Engine) (res : ℕ) (j k : InodeKey)
      → (j == k) ≡ false
      → owner_before (forget j e) res k ≡ owner_before e res k
  owner_before-forget e res j k h = ap (heir e res) (lookup-delete j k e.prev_owner ∙ rw h refl)

  -- One row's release, then the others'.
  row_then :
      (e : Engine) (res : ℕ) (j k : InodeKey) (rest : List InodeKey) (old new last : Option ℕ)
      → contains rest j ≡ false
      → new ≡ (if j == k then owner_before e res j else old)
      → last ≡ (if contains rest k then owner_before (forget j e) res k else new)
      → last ≡ (if (j == k) || contains rest k then owner_before e res k else old)
  row_then e res j k rest old new last apart p q = elim (Bool-cases (j == k)) [
    | inl same ↦
        q
        ∙ ap (λ x. if contains rest x then owner_before (forget j e) res k else new)
            (sym ((inode_eq.beq_iff j k).0 same))
        ∙ rw apart refl
        ∙ p
        ∙ rw (same, (inode_eq.beq_iff j k).0 same) refl
    | inr other ↦ q ∙ rw (owner_before-forget e res j k other, p, other) refl
  ]

  each-row :
      (res : ℕ) (owned : List InodeKey) (k : InodeKey) (w : World K.State)
      → distinct owned ≡ true
      → (each (release_inode K res) owned w).0 ≡ ok tt
      → K.row (each (release_inode K res) owned w).1.kernel (inode_row k)
        ≡ (if contains owned k then owner_before w.engine res k else K.row w.kernel (inode_row k))
  unfolding each ◌>>◌ pure
  each-row res [] k w d = λ h. refl
  each-row res (j ∷ owned) k w d =
      bind_cases
        (λ p.
          p.0 ≡ ok tt
          → K.row p.1.kernel (inode_row k) ≡ (
              if contains (j ∷ owned) k
              then owner_before w.engine res k
              else K.row w.kernel (inode_row k)))
        (release_inode K res j) (λ u. each (release_inode K res) owned) w
        (λ u good h.
          let (row, engine) = release_inode-row res j k w good in
          row_then w.engine res j k owned _ _ _ (ground arith) row (
            each-row res owned k (release_inode K res j w).1 (ground arith) h
            ∙ ap
                (λ e.
                  if contains owned k
                  then owner_before e res k
                  else K.row (release_inode K res j w).1.kernel (inode_row k))
                engine))
        (λ e bad h. absurd cc)

  release_inodes-row :
      (res : ℕ) (owned : List InodeKey) (k : InodeKey) (w : World K.State)
      → distinct owned ≡ true
      → (release_inodes K res owned w).0 ≡ ok tt
      → K.row (release_inodes K res owned w).1.kernel (inode_row k)
        ≡ (if contains owned k then owner_before w.engine res k else K.row w.kernel (inode_row k))
  unfolding release_inodes ◌>>◌ set_engine modify
  release_inodes-row res owned k w d =
      bind_cases
        (λ p.
          p.0 ≡ ok tt
          → K.row p.1.kernel (inode_row k) ≡ (
              if contains owned k
              then owner_before w.engine res k
              else K.row w.kernel (inode_row k)))
        (each (release_inode K res) owned)
        (λ u. set_engine K λ e. record e { prev_owner = forget_prev K res e.prev_owner }) w
        (λ u good h. each-row res owned k w d good) (λ e bad h. absurd cc)

  -- When `releaseInodes` succeeds on the rows that its walk lists, however often the walk visits a row: each
  -- row that it visits with the resource's number goes back to the owner that the resource displaced from it,
  -- if that is another resource in one of the 512 slots and alive, and else is gone; every other inode's row
  -- is as it was.
  pub release_inodes-hands_back :
      (visits : List (InodeKey × ℕ)) (res : ℕ) (k : InodeKey) (w : World K.State)
      → (release_inodes K res (batch_inode_rows visits res) w).0 ≡ ok tt
      → K.row (release_inodes K res (batch_inode_rows visits res) w).1.kernel (inode_row k) ≡ (
          if contains visits (k, res)
          then owner_before w.engine res k
          else K.row w.kernel (inode_row k))
  release_inodes-hands_back visits res k w h =
      release_inodes-row res (batch_inode_rows visits res) k w
        (distinct-batch_inode_rows visits res) h
      ∙ ap (λ b. if b then owner_before w.engine res k else K.row w.kernel (inode_row k))
          (contains-batch_inode_rows visits res k)
