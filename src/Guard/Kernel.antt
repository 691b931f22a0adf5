-- ===== src/Guard/Kernel.antt =====
-- internal/guard: the eBPF maps as the code sees them, through github.com/cilium/ebpf. The maps and
-- their operations are a parameter; the laws are the documented behaviour of `Lookup`, `Put` and
-- `Delete`, each of which may fail and then changes nothing.
use app_listener.Base.{
  ℕ, ◌≡◌, ◌↔◌, Bool, true, false, ◌&&◌, Option, none, some, List, EqTest, ◌==◌, nat_eq, list_eq,
  if◌then◌else◌, contains, arith,
}
use app_listener.Base.Eq.{list_beq_iff}
use app_listener.Guard.Keys.{InodeKey, inode_eq, ResInodeKey, res_inode_eq}

-- A row of one of the maps, named by the map.
pub data Row : Type 0 where
  -- guard_exe_actions and guard_exe_events
  action_row event_row : ResInodeKey → Row
  -- guard_trusted_files, guard_exe_union and guard_inodes
  trust_row union_row inode_row : InodeKey → Row
  -- guard_taint_members, by set and member
  member_row : ℕ → ℕ → Row
  -- guard_res_config, by slot
  config_row : ℕ → Row
  -- guard_taint_successor, by slot
  successor_row : ℕ → Row
  -- guard_multicall, and guard_multicall_names by file and applet name
  multicall_row : InodeKey → Row
  mc_name_row : InodeKey → List ℕ → Row

abbrev pub row_beq : Row → Row → Bool
row_beq (action_row a) (action_row b) = a == b
row_beq (event_row a) (event_row b) = a == b
row_beq (trust_row a) (trust_row b) = a == b
row_beq (union_row a) (union_row b) = a == b
row_beq (inode_row a) (inode_row b) = a == b
row_beq (member_row a b) (member_row c d) = (a == c) && (b == d)
row_beq (config_row a) (config_row b) = a == b
row_beq (successor_row a) (successor_row b) = a == b
row_beq (multicall_row a) (multicall_row b) = a == b
row_beq (mc_name_row a n) (mc_name_row b m) = (a == b) && (n == m)
row_beq _ _ = false

pub row_beq_iff : (p q : Row) → (row_beq p q ≡ true) ↔ (p ≡ q)
row_beq_iff (action_row a) (action_row b) = ground (arith, res_inode_eq.beq_iff a b)
row_beq_iff (event_row a) (event_row b) = ground (arith, res_inode_eq.beq_iff a b)
row_beq_iff (trust_row a) (trust_row b) = ground (arith, inode_eq.beq_iff a b)
row_beq_iff (union_row a) (union_row b) = ground (arith, inode_eq.beq_iff a b)
row_beq_iff (inode_row a) (inode_row b) = ground (arith, inode_eq.beq_iff a b)
row_beq_iff (member_row a b) (member_row c d) = ground arith
row_beq_iff (config_row a) (config_row b) = ground arith
row_beq_iff (successor_row a) (successor_row b) = ground arith
row_beq_iff (multicall_row a) (multicall_row b) = ground (arith, inode_eq.beq_iff a b)
row_beq_iff (mc_name_row a n) (mc_name_row b m) =
    ground (arith, inode_eq.beq_iff a b, list_beq_iff n m)
row_beq_iff _ _ = ground arith

instance abbrev pub row_eq : EqTest Row
row_eq = record { beq = row_beq; beq_iff = row_beq_iff }

-- What `Lookup` answers: a value, `ErrKeyNotExist`, or another error.
pub data Found : Type 0 where
  found : ℕ → Found
  absent : Found
  fault : Found

pub data Deletion : Type 0 where
  deleted missing failed : Deletion

abbrev pub Answers : Option ℕ → Found → Type 0
Answers o (found v) = o ≡ some v
Answers o absent = o ≡ none
Answers o fault = Unit

-- What a deletion leaves of a row.
abbrev pub after_delete : Deletion → Bool → Option ℕ → Option ℕ
after_delete deleted hit o = if hit then none else o
after_delete missing hit o = if hit then none else o
after_delete failed hit o = o

pub record Kernel : Type 1 where
  pub State : Type 0
  pub row : State → Row → Option ℕ
  pub lookup : Row → State → Found × State
  pub put : Row → ℕ → State → Bool × State
  pub delete : Row → State → Deletion × State
  -- The keys of guard_exe_actions, as an iterator reads them.
  pub action_keys : State → Option (List ResInodeKey)
  pub lookup_answers : (r : Row) (s : State) → Answers (row s r) (lookup r s).0
  pub lookup_keeps : (r : Row) (s : State) (q : Row) → row (lookup r s).1 q ≡ row s q
  pub put_row :
      (r : Row) (v : ℕ) (s : State) (q : Row)
      → row (put r v s).1 q
        ≡ (if (put r v s).0 then (if r == q then some v else row s q) else row s q)
  pub delete_row :
      (r : Row) (s : State) (q : Row)
      → row (delete r s).1 q ≡ after_delete (delete r s).0 (r == q) (row s q)
  pub action_keys_rows :
      (s : State) (ks : List ResInodeKey)
      → action_keys s ≡ some ks
      → (k : ResInodeKey) → contains ks k ≡ false
      → row s (action_row k) ≡ none
