-- ===== src/Recorder/Apply.antt =====
-- internal/recorder: `apply`, the transaction that performs a plan. The store, the vault and the ledger are a
-- parameter: what each call answers is any function of the calls made so far. Rendering a plan is one too.
pub mod Undone
use app_listener.Base.{
  ℕ, zero, suc, Bool, true, false, not, ◌&&◌, ◌||◌, Option, none, some, List, [], ◌∷◌, ◌++◌, ◌==◌,
  nat_eq, list_eq, if◌then◌else◌, map, reverse, contains, Bytes, codes,
}
use app_listener.Recorder.Targets.{backup_suffix}
use app_listener.Recorder.Plan.{PlannedBinary}

-- The calls that change something, with what they did.
pub data Call : Type 0 where
  encrypted : Bytes → Call
  encrypt_failed : Bytes → Call
  restored : Bytes → Call
  recorded : PlannedBinary → Call
  record_kept record_failed : PlannedBinary → Call
  forgotten : PlannedBinary → Call
  put_done put_refused : Call

abbrev pub History : Type 0
History = List Call

-- `Put`: done, `ErrStale`, or another error.
pub data PutAnswer : Type 0 where
  put_ok put_stale put_failed : PutAnswer

-- The interfaces `Store`, `vaultOps` and `ledgerOps`, and `systemSetup`.
pub record Services : Type 0 where
  pub fetch : History → Option Bytes
  pub put : History → Bytes → Bytes → PutAnswer
  pub is_ready : Bytes → Bool
  pub setup_ok : Bool
  pub encrypt_ok : History → Bytes → Bool
  pub record_if_absent : History → PlannedBinary → Option Bool
  pub render : Bytes → Option Bytes

-- `maxStaleRetries`
abbrev pub max_stale_retries : ℕ
max_stale_retries = 3

-- `rollback`: the migrations newest first, then the pins.
abbrev pub rollback : History → List Bytes → List PlannedBinary → History
rollback h paths pins = (h ++ map restored (reverse paths)) ++ map forgotten pins

module _ (sv : Services) where
  -- `checkEncryptable`; true is no error.
  abbrev pub all_ready : List Bytes → Bool
  all_ready [] = true
  all_ready (p ∷ ps) = sv.is_ready p && all_ready ps

  abbrev pub check_encryptable : List Bytes → Bool
  check_encryptable [] = true
  check_encryptable (p ∷ ps) = all_ready (p ∷ ps) && sv.setup_ok

  -- `encrypt`: whether it succeeded, what it has migrated, and the calls.
  abbrev pub encrypt_all : History → List Bytes → List Bytes → Bool × List Bytes × History
  encrypt_all h out [] = (true, out, h)
  encrypt_all h out (p ∷ ps) =
      let rest = encrypt_all (h ++ encrypted p ∷ []) (out ++ p ∷ []) ps in
      if sv.encrypt_ok h p then rest else (false, out, h ++ encrypt_failed p ∷ [])

  -- `pin`: a root-placed binary needs none, and a line that the ledger has keeps its hash.
  abbrev pub pin_all :
      History → List PlannedBinary → List PlannedBinary → Bool × List PlannedBinary × History
  pin_all h out [] = (true, out, h)
  pin_all h out (b ∷ bs) =
      let skip = pin_all h out bs in
      let kept = pin_all (h ++ record_kept b ∷ []) out bs in
      let added = pin_all (h ++ recorded b ∷ []) (out ++ b ∷ []) bs in
      if b.system_placed then skip else elim (sv.record_if_absent h b) [
        | none ↦ (false, out, h ++ record_failed b ∷ [])
        | some false ↦ kept
        | some true ↦ added
      ]

  -- After an error of `Put` that is not stale: the file may hold the text all the same.
  abbrev pub holds_text : Option Bytes → Bytes → Option Bytes
  holds_text none text = none
  holds_text (some cur) text = if cur == text then some cur else none

  -- A stale answer: the file is fetched and the plan rendered anew, while an attempt is left.
  abbrev pub put_rendered :
      (Bytes → Bytes → Option Bytes × History)
      → History
      → Bytes
      → Option Bytes
      → Option Bytes × History
  put_rendered again h next none = (none, h)
  put_rendered again h next (some text) = again next text

  abbrev pub put_fetched :
      (Bytes → Bytes → Option Bytes × History) → History → Option Bytes → Option Bytes × History
  put_fetched again h none = (none, h)
  put_fetched again h (some next) = put_rendered again h next (sv.render next)

  abbrev pub put_again :
      (Bytes → Bytes → Option Bytes × History) → History → ℕ → Option Bytes × History
  put_again again h zero = (none, h)
  put_again again h (suc n) = put_fetched again h (sv.fetch h)

  abbrev pub put_answered :
      (Bytes → Bytes → Option Bytes × History)
      → ℕ
      → History
      → Bytes
      → PutAnswer
      → Option Bytes × History
  put_answered again n h text put_ok = (some text, h ++ put_done ∷ [])
  put_answered again n h text put_failed =
      (holds_text (sv.fetch (h ++ put_refused ∷ [])) text, h ++ put_refused ∷ [])
  put_answered again n h text put_stale = put_again again (h ++ put_refused ∷ []) n

  -- `put`, with the attempts that are left.
  abbrev pub put_config : ℕ → History → Bytes → Bytes → Option Bytes × History
  put_config zero h base text = (none, h)
  put_config (suc n) h base text =
      put_answered (λ next again. put_config n (h ++ put_refused ∷ []) next again) n h text
        (sv.put h base text)

  -- What `apply` answers: the new configuration and the backups, or an error.
  abbrev pub finish :
      List Bytes
      → List PlannedBinary
      → Option Bytes × History
      → Option (Bytes × List Bytes) × History
  finish paths pins (none, h) = (none, rollback h paths pins)
  finish paths pins (some text, h) = (some (text, map (λ p. p ++ backup_suffix) paths), h)

  abbrev pub pinned_then :
      Bytes
      → Bytes
      → List Bytes
      → Bool × List PlannedBinary × History
      → Option (Bytes × List Bytes) × History
  pinned_then base text paths (false, pins, h) = (none, rollback h paths pins)
  pinned_then base text paths (true, pins, h) =
      finish paths pins (put_config max_stale_retries h base text)

  abbrev pub encrypted_then :
      Bytes
      → Bytes
      → List PlannedBinary
      → Bool × List Bytes × History
      → Option (Bytes × List Bytes) × History
  encrypted_then base text bins (false, paths, h) = (none, rollback h paths [])
  encrypted_then base text bins (true, paths, h) = pinned_then base text paths (pin_all h [] bins)

  abbrev pub rendered_then :
      List Bytes → List PlannedBinary → Bytes → Option Bytes → Option (Bytes × List Bytes) × History
  rendered_then paths bins base none = (none, [])
  rendered_then paths bins base (some text) =
      if not (check_encryptable paths)
      then (none, [])
      else encrypted_then base text bins (encrypt_all [] [] paths)

  abbrev pub fetched_then :
      List Bytes → List PlannedBinary → Option Bytes → Option (Bytes × List Bytes) × History
  fetched_then paths bins none = (none, [])
  fetched_then paths bins (some base) = rendered_then paths bins base (sv.render base)

  -- `apply`, of a plan's paths to encrypt and its binaries.
  unfoldable pub apply_plan :
      List Bytes → List PlannedBinary → Option (Bytes × List Bytes) × History
  apply_plan paths bins = fetched_then paths bins (sv.fetch [])
