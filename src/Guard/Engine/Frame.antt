-- ===== src/Guard/Engine/Frame.antt =====
-- The engine's operations are quiet: whatever fails, they leave a live resource's own rows alone.
use app_listener.Base.{
  ℕ, zero, suc, ◌≡◌, refl, ap, ◌≢◌, inl, inr, Bool, true, false, Option, none, some, List, [], ◌∷◌,
  ◌==◌, nat_eq, list_eq, pair_eq, if◌then◌else◌, Bool-cases, Bytes, arith, contains,
}
use app_listener.Base.Assoc.{has_key, insert, lookup}
use app_listener.Base.State.{Error, pure, throw, ◌>>◌, each}
use app_listener.Guard.Keys.{InodeKey, inode_eq, ResInodeKey, AllowSet, res_global}
use app_listener.Guard.Taint.{Info, TaintOwner}
use app_listener.Guard.Kernel.{Kernel, action_row, config_row}
use app_listener.Guard.Engine.{
  Engine, Act, put_row, set_engine, slot_busy, alloc_set_slot_from, alloc_set_slot,
  taint_set_config,
}
use app_listener.Guard.Engine.Quiet.{
  IsOwn, Apart, All, Quiet, Quiet-pure, Quiet-bind, Quiet-then, Quiet-each, Quiet-on_engine,
  Quiet-set_engine, Quiet-when, Quiet-put_row, Quiet-delete_row,
}
use app_listener.Guard.Engine.Sync.{
  allows_of, drop_set_row, write_set_row, row_is, sync_set_rows, sync_union_map, sync_member_map,
  sync_sets, owner_slot, build_union, sync_taint, clear_key, clear_keys, clear_global_allows,
  refresh_global, sync_shared, note_allow, note_deny,
}

Apart-insert :
    (r : ℕ) (key : Bytes) (slot : ℕ) (sets : List (Bytes × ℕ))
    → slot ≢ r
    → Apart r sets
    → Apart r (insert key slot sets)
Apart-insert r key slot [] n a = (n, tt)
Apart-insert r key slot ((k, s) ∷ sets) n a = ground (arith, Apart-insert r key slot sets n a.1)

module _ (K : Kernel) (r : ℕ) where
  pub Quiet-if :
      (b : Bool) (m : Act K (Unit {0})) → Quiet K r m → Quiet K r (if b then pure tt else m)
  Quiet-if true m q = Quiet-pure K r tt
  Quiet-if false m q = q

  pub Quiet-each_any :
      {A : Type 0} (f : A → Act K (Unit {0})) (xs : List A)
      → ((a : A) → Quiet K r (f a))
      → Quiet K r (each f xs)
  unfolding each
  Quiet-each_any f [] q = Quiet-pure K r tt
  Quiet-each_any f (x ∷ xs) q = Quiet-then K r (f x) (each f xs) (q x) (Quiet-each_any f xs q)

  pub Quiet-throw : {A : Type 0} (x : Error) → Quiet K r {A = A} (throw x)
  unfolding throw
  Quiet-throw x = record { run = λ w own. (λ q h. refl, own) }

  -- The branch that takes a free slot.
  take_slot : ℕ → Bytes → Act K ℕ
  take_slot id key = do
    put_row K (config_row id) taint_set_config
    set_engine K λ e. record e { set_at = insert id key e.set_at; sets = insert key id e.sets }
    pure id

  Quiet-take_slot : (id : ℕ) (key : Bytes) → id ≢ r → Quiet K r (take_slot id key)
  unfolding take_slot
  Quiet-take_slot id key n =
      Quiet-then K r (put_row K (config_row id) taint_set_config) _ (Quiet-put_row K r _ _ refl) (
        Quiet-then K r (set_engine K _) _
          (Quiet-set_engine K r _ λ e own. record {
            live = own.live;
            apart = Apart-insert r key id e.sets n own.apart;
            real_slot = own.real_slot;
          })
          (Quiet-pure K r id))

  free_slot-ne : (e : Engine) (id : ℕ) → IsOwn r e → slot_busy e id ≡ false → id ≢ r
  free_slot-ne e id own free same = ground (arith, own.live, ap (λ j. has_key j e.slots) same)

  Quiet-alloc_set_slot_from : (id : ℕ) (key : Bytes) → Quiet K r (alloc_set_slot_from K id key)
  unfolding alloc_set_slot_from take_slot
  Quiet-alloc_set_slot_from zero key = Quiet-pure K r {A = ℕ} 0
  Quiet-alloc_set_slot_from (suc id) key = Quiet-on_engine K r _ λ e own.
      elim (Bool-cases (slot_busy e (suc id))) [
        | inl busy ↦ rw busy (Quiet-alloc_set_slot_from id key)
        | inr free ↦ rw free (Quiet-take_slot (suc id) key (free_slot-ne e (suc id) own free))
      ]

  Quiet-sync_set_rows :
      (slot : ℕ) (want : AllowSet) → slot ≢ r → Quiet K r (sync_set_rows K slot want)
  unfolding sync_set_rows
  Quiet-sync_set_rows slot want n = Quiet-on_engine K r _ λ e own.
      Quiet-then K r (each (drop_set_row K slot want) _) _
        (Quiet-each_any _ _
          λ (exe, a). Quiet-if (has_key exe want) _ (Quiet-delete_row K r _ other))
        (Quiet-then K r (each (write_set_row K slot _) want) _
          (Quiet-each_any _ _ λ (exe, a). Quiet-if (row_is exe a _) _ (Quiet-put_row K r _ _ other))
          (Quiet-set_engine K r _
            λ e own. record { live = own.live; apart = own.apart; real_slot = own.real_slot }))
    where
      other : (slot == r) ≡ false
      other = ground arith

  Quiet-sync_union_map : (have want : List (InodeKey × ℕ)) → Quiet K r (sync_union_map K have want)
  unfolding sync_union_map
  Quiet-sync_union_map have want =
      Quiet-then K r _ _
        (Quiet-each_any _ want
          λ (exe, slot). Quiet-if (row_is exe slot have) _ (Quiet-put_row K r _ _ refl))
        (Quiet-each_any _ have
          λ (exe, slot). Quiet-if (has_key exe want) _ (Quiet-delete_row K r _ refl))

  Quiet-sync_member_map : (have want : List (ℕ × ℕ)) → Quiet K r (sync_member_map K have want)
  unfolding sync_member_map
  Quiet-sync_member_map have want =
      Quiet-then K r _ _
        (Quiet-each_any _ want
          λ (s, m). Quiet-if (contains have (s, m)) _ (Quiet-put_row K r _ _ refl))
        (Quiet-each_any _ have
          λ (s, m). Quiet-if (contains want (s, m)) _ (Quiet-delete_row K r _ refl))

  -- A change of the fields that the invariant does not read.
  pub Quiet-bookkeeping :
      (f : Engine → Engine)
      → ((e : Engine) → (f e).slots ≡ e.slots)
      → ((e : Engine) → (f e).sets ≡ e.sets)
      → Quiet K r (set_engine K f)
  Quiet-bookkeeping f s t = Quiet-set_engine K r f λ e own. record {
    live = rw (s e) own.live;
    apart = rw (t e) own.apart;
    real_slot = own.real_slot;
  }

  Quiet-sync_sets : (info : Info) (union : List (InodeKey × ℕ)) → Quiet K r (sync_sets K info union)
  unfolding sync_sets
  Quiet-sync_sets info union = Quiet-on_engine K r _ λ e own.
      Quiet-then K r _ _
        (Quiet-each K r (λ (p : Bytes × ℕ). p.1 ≢ r) _ e.sets (parts e.sets own.apart)
          λ (key, slot) n. Quiet-on_engine K r _ λ e own. Quiet-sync_set_rows slot _ n)
        (Quiet-then K r _ _ (Quiet-sync_member_map _ _)
          (Quiet-bookkeeping _ (λ e. refl) (λ e. refl)))
    where
      parts : (sets : List (Bytes × ℕ)) → Apart r sets → All (λ (p : Bytes × ℕ). p.1 ≢ r) sets
      parts [] a = tt
      parts ((key, slot) ∷ sets) a = (a.0, parts sets a.1)

  Quiet-owner_slot : (o : TaintOwner) → Quiet K r (owner_slot K o)
  Quiet-owner_slot o = elim (Bool-cases (o.set_key == [])) [
    | inl own ↦ rw own (Quiet-pure K r o.res)
    | inr set ↦ rw set (Quiet-on_engine K r _ λ e own. find (lookup o.set_key e.sets))
  ]
    where
      find :
          (s : Option ℕ)
          → Quiet K r (elim s [ some slot ↦ pure slot | none ↦ alloc_set_slot K o.set_key ])
      find (some slot) = Quiet-pure K r slot
      find none = unfold alloc_set_slot in Quiet-alloc_set_slot_from 511 o.set_key

  Quiet-build_union :
      (owners : List (InodeKey × TaintOwner)) (union : List (InodeKey × ℕ))
      → Quiet K r (build_union K owners union)
  unfolding build_union
  Quiet-build_union [] union = Quiet-pure K r union
  Quiet-build_union ((exe, o) ∷ owners) union =
      Quiet-bind K r _ _ (Quiet-owner_slot o)
        (λ slot. Quiet-build_union owners (insert exe slot union))

  Quiet-sync_taint : Quiet K r (sync_taint K)
  unfolding sync_taint
  Quiet-sync_taint = Quiet-on_engine K r _ λ e own. Quiet-when K r e.started _ (
      Quiet-bind K r _ _ (Quiet-build_union _ []) λ union.
        Quiet-then K r _ _ (Quiet-sync_sets _ union) (
          Quiet-then K r _ _ (Quiet-on_engine K r _ λ e own. Quiet-sync_union_map _ union)
            (Quiet-bookkeeping _ (λ e. refl) (λ e. refl))))

  Quiet-clear_key : (k : ResInodeKey) → r ≢ 0 → Quiet K r (clear_key K k)
  Quiet-clear_key k n = elim (Bool-cases (k.res == res_global)) [
    | inl hit ↦ rw hit (Quiet-delete_row K r (action_row k) (ground arith))
    | inr miss ↦ rw miss (Quiet-pure K r tt)
  ]

  Quiet-clear_keys : (o : Option (List ResInodeKey)) → r ≢ 0 → Quiet K r (clear_keys K o)
  unfolding throw
  Quiet-clear_keys none n = record { run = λ w own. (λ q h. refl, own) }
  Quiet-clear_keys (some ks) n = Quiet-each_any (clear_key K) ks (λ k. Quiet-clear_key k n)

  Quiet-clear_global_allows : Quiet K r (clear_global_allows K)
  unfolding clear_global_allows
  Quiet-clear_global_allows = record {
    run = λ w own. (Quiet-clear_keys (K.action_keys w.kernel) own.real_slot).run w own;
  }

  Quiet-refresh_global : Quiet K r (refresh_global K)
  unfolding refresh_global
  Quiet-refresh_global = Quiet-on_engine K r _ λ e own. Quiet-when K r e.started _ (
      Quiet-then K r _ _ Quiet-clear_global_allows
        (Quiet-each_any _ _ λ (exe, action). Quiet-put_row K r _ action (not_own own.real_slot)))
    where
      not_own : r ≢ 0 → (res_global == r) ≡ false
      not_own n = ground arith

  pub Quiet-sync_shared : Quiet K r (sync_shared K)
  unfolding sync_shared
  Quiet-sync_shared = Quiet-then K r _ _ Quiet-sync_taint Quiet-refresh_global

  pub Quiet-note_allow : (res : ℕ) (exe : InodeKey) (a : ℕ) → Quiet K r (note_allow K res exe a)
  unfolding note_allow
  Quiet-note_allow res exe a =
      Quiet-then K r _ _ (Quiet-bookkeeping _ (λ e. refl) (λ e. refl)) Quiet-sync_shared

  pub Quiet-note_deny : (res : ℕ) (exe : InodeKey) → Quiet K r (note_deny K res exe)
  unfolding note_deny
  Quiet-note_deny res exe = Quiet-on_engine K r _ λ e own.
      elim (Bool-cases (has_key exe (allows_of res e.allows))) [
        | inl had ↦
            rw had
              (Quiet-then K r _ _ (Quiet-bookkeeping _ (λ e. refl) (λ e. refl)) Quiet-sync_shared)
        | inr not_had ↦ rw not_had (Quiet-pure K r tt)
      ]
