-- ===== src/Samples/Grants.antt =====
-- Concrete runs of temporary grants, over maps that are tables and never fail.
use app_listener.Base.{
  ℕ, pair_eq, if◌then◌else◌, ◌≡◌, refl, inl, true, false, Option, none, some, List, [], ◌∷◌, nat_eq,
  list_eq, contains, codes, arith,
}
use app_listener.Base.Assoc.{lookup, insert, delete, lookup-insert, lookup-delete}
use app_listener.Base.State.{Result, ok, pure, throw, ◌>>=◌, ◌>>◌, when, each, modify}
use app_listener.Guard.Keys.{
  InodeKey, inode_eq, ResInodeKey, res_inode_eq, whitelist, tagged, real, guard_allow,
}
use app_listener.Guard.Kernel.{
  Kernel, Row, row_eq, action_row, event_row, inode_row, Found, found, absent, deleted, Answers,
}
use app_listener.Guard.Engine.{
  Engine, World, put_row, delete_row, lookup_row, set_engine, on_engine,
}
use app_listener.Guard.Engine.Quiet.{IsOwn}
use app_listener.Guard.Engine.Sync.{note_allow, note_deny, sync_shared, sync_taint, refresh_global}
use app_listener.Guard.Rows.{GuardState, ExeRow, read_exe_row, put_exe_action, restore_mask}
use app_listener.Guard.Temp.{TempBinary, TempRule, TempGrant, new_row}
use app_listener.Guard.Temp.Grant.{
  on_world, set_row, trust_temp_runtime, write_temp_row, apply_temp_row, apply_rows, apply,
  restore_temp_action, restore_temp_row, untrust_temp_runtime, revoke_row, revoke_rows, revoke,
}
use app_listener.Guard.Temp.RoundTrip.{revoke-apply}
use app_listener.Guard.Strip.{Strips, strip_pinned_temp_allows, strip_pinned_temp_allows-Strips}
use app_listener.Guard.Inodes.{batch_inode_rows, release_inodes}
use app_listener.Guard.Inodes.Release.{owner_before, release_inodes-hands_back}
use app_listener.Session.{Port, Daemon, grant_temporary_access}
use app_listener.Session.Flags.{Outcome, grant_temporary_access-exclusive}

abbrev Table : Type 0
Table = List (Row × ℕ)

abbrev keys_in : Table → List ResInodeKey
keys_in [] = []
keys_in ((action_row k, v) ∷ t) = k ∷ keys_in t
keys_in ((_, v) ∷ t) = keys_in t

abbrev table_lookup : Row → Table → Found × Table
table_lookup r t = (elim (lookup r t) [ none ↦ absent | some v ↦ found v ], t)

keys_in_lem :
    (t : Table) (k : ResInodeKey) → contains (keys_in t) k ≡ false → lookup (action_row k) t ≡ none
keys_in_lem [] k h = refl
keys_in_lem ((action_row j, v) ∷ t) k h = ground (arith, keys_in_lem t k)
keys_in_lem ((_, v) ∷ t) k h = keys_in_lem t k h

same_keys :
    (ks js : List ResInodeKey)
    → some ks ≡ some js
    → (k : ResInodeKey) → contains js k ≡ false
    → contains ks k ≡ false
same_keys ks js e k h = ground arith

abbrev tables : Kernel
tables = record {
  State = Table;
  row = λ t r. lookup r t;
  lookup = table_lookup;
  put = λ r v t. (true, insert r v t);
  delete = λ r t. (deleted, delete r t);
  action_keys = λ t. some (keys_in t);
  lookup_answers = λ r t. answers r t (lookup r t) refl;
  lookup_keeps = λ r t q. refl;
  put_row = λ r v t q. lookup-insert r q v t;
  delete_row = λ r t q. lookup-delete r q t;
  action_keys_rows = λ t ks e k h. keys_in_lem t k (same_keys (keys_in t) ks e k h);
}
  where
    answers :
        (r : Row) (t : Table) (o : Option ℕ)
        → lookup r t ≡ o
        → Answers o (elim o [ none ↦ absent | some v ↦ found v ])
    answers r t none e = refl
    answers r t (some v) e = refl

abbrev key : ℕ → InodeKey
key n = record { dev = 1; ino = n }

abbrev etc : GuardState
etc = record {
  path = codes "/etc";
  mode = whitelist;
  res_id = 5;
  stopped = false;
  self_key = none;
  deployed = [];
  verify_states = [];
}

abbrev engine : Engine
engine = record {
  slots = (5, record { path = codes "/etc"; mode = whitelist; canonical_root = true }) ∷ [];
  started = false;
  refs = 1;
  allows = [];
  allows_made = true;
  sets = [];
  set_at = [];
  set_rows = [];
  union_rows = [];
  member_rows = [];
  successor = [];
  inspectors = [];
  prev_owner = [];
  mc_tags = [];
  mc_builds = [];
  mc_names = [];
}

abbrev before : World Table
before = record { kernel = (event_row (record { res = 5; exe = key 9 }), 7) ∷ []; engine = engine }

abbrev cat : TempBinary
cat = record { path = codes "/bin/cat"; key = key 9; runtime = 0 }

abbrev masked : ExeRow
masked = record { has_action = false; action = 0; has_mask = true; mask = 7 }

abbrev one_grant : TempGrant
one_grant = record {
  rows = record (new_row cat masked) { new_action = guard_allow } ∷ [];
  report = [];
  revoked = false;
}

own : IsOwn 5 engine
own = record { live = refl; apart = tt; real_slot = λ e. ground arith }

abbrev granted : Result (Unit {0}) × TempGrant × World Table
granted = apply tables etc (some 1) one_grant before

applies : granted.0 ≡ ok tt
unfolding apply apply_rows apply_temp_row read_exe_row lookup_row on_world set_row write_temp_row
    trust_temp_runtime put_exe_action put_row note_allow sync_shared sync_taint refresh_global
    set_engine on_engine real tagged ◌>>=◌ ◌>>◌ pure throw when each modify
applies = refl

revokes : (revoke tables etc (some 1) granted.1 granted.2).0 ≡ []
unfolding revoke revoke_rows revoke_row restore_temp_row restore_temp_action untrust_temp_runtime
    restore_mask delete_row note_deny apply apply_rows apply_temp_row read_exe_row lookup_row
    on_world set_row write_temp_row trust_temp_runtime put_exe_action put_row note_allow sync_shared
    sync_taint refresh_global set_engine on_engine real tagged ◌>>=◌ ◌>>◌ pure throw when each
    modify
revokes = refl

IsOwn-granted : IsOwn 5 granted.2.engine
unfolding apply apply_rows apply_temp_row read_exe_row lookup_row on_world set_row write_temp_row
    trust_temp_runtime put_exe_action put_row note_allow sync_shared sync_taint refresh_global
    set_engine on_engine real tagged ◌>>=◌ ◌>>◌ pure throw when each modify
IsOwn-granted = record { live = refl; apart = tt; real_slot = λ e. ground arith }

revoke-apply_example :
    lookup
      (action_row (record { res = 5; exe = key 9 }))
      (revoke tables etc (some 1) (apply tables etc (some 1) one_grant before).1 granted.2).2.kernel
    ≡ lookup (action_row (record { res = 5; exe = key 9 })) before.kernel
revoke-apply_example =
    revoke-apply tables etc (some 1) (some 1) one_grant before granted.2 refl refl refl
      (inl (refl, refl, refl), tt) own IsOwn-granted applies (λ q h. refl) revokes
      (action_row (record { res = 5; exe = key 9 })) refl

-- A dead daemon's maps: a plain allow with its mask.
abbrev left_over : Table
left_over =
    (action_row (record { res = 5; exe = key 9 }), 2)
    ∷ (event_row (record { res = 5; exe = key 9 }), 7)
    ∷ []

abbrev journaled : List ResInodeKey
journaled = record { res = 5; exe = key 9 } ∷ []

strip_pinned_temp_allows-Strips_example :
    Strips true true
      (strip_pinned_temp_allows tables true journaled left_over).1
      (some 2)
      (some 7)
      (lookup
        (action_row (record { res = 5; exe = key 9 }))
        (strip_pinned_temp_allows tables true journaled left_over).2)
      (lookup
        (event_row (record { res = 5; exe = key 9 }))
        (strip_pinned_temp_allows tables true journaled left_over).2)
strip_pinned_temp_allows-Strips_example =
    strip_pinned_temp_allows-Strips tables true journaled left_over
      (record { res = 5; exe = key 9 })

-- Resource 5 took the row of an inode from resource 6, which is alive.
abbrev taken_over : World Table
taken_over = record {
  kernel = (inode_row (key 3), 5) ∷ [];
  engine = record engine {
    slots = (6, record { path = codes "/srv"; mode = whitelist; canonical_root = true }) ∷ [];
    prev_owner = (key 3, 6) ∷ [];
  };
}

abbrev seen_twice : List (InodeKey × ℕ)
seen_twice = (key 3, 5) ∷ (key 3, 5) ∷ []

releases : (release_inodes tables 5 (batch_inode_rows seen_twice 5) taken_over).0 ≡ ok tt
unfolding release_inodes batch_inode_rows put_row set_engine on_engine each pure modify ◌>>◌
releases = refl

release_inodes-hands_back_example :
    lookup
      (inode_row (key 3))
      (release_inodes tables 5 (batch_inode_rows seen_twice 5) taken_over).1.kernel
    ≡ (if contains seen_twice (key 3, 5)
        then owner_before taken_over.engine 5 (key 3)
        else lookup (inode_row (key 3)) taken_over.kernel)
release_inodes-hands_back_example =
    release_inodes-hands_back tables seen_twice 5 (key 3) taken_over releases

abbrev no_port : Port
no_port = record {
  State = Unit {0};
  resolve = λ p s. (ok (record { path = p; key = key 9; runtime = 0 }), s);
  close = λ b s. s;
  plan = λ g bins rule s. (ok 3, s);
  report = λ s t. [];
  rows = λ s t. [];
  apply = λ t s. (ok tt, s);
  revoke = λ t s. ([], s);
  journal = λ rows s. (ok tt, s);
}

abbrev idle : Daemon (Unit {0})
idle = record {
  stopping = false;
  edit_grant_active = false;
  resources = (codes "/etc", 0) ∷ [];
  port = tt;
}

abbrev allow_all : TempRule
allow_all = record { allow = true; events = [] }

grant_temporary_access-exclusive_example :
    Outcome no_port idle
      (grant_temporary_access no_port (codes "/etc" ∷ []) (codes "/bin/cat" ∷ []) allow_all idle)
grant_temporary_access-exclusive_example =
    grant_temporary_access-exclusive no_port (codes "/etc" ∷ []) (codes "/bin/cat" ∷ []) allow_all
      idle
