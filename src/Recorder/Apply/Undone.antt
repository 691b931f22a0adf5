-- ===== src/Recorder/Apply/Undone.antt =====
-- internal/recorder: a plan that fails to apply is undone.
use app_listener.Base.{
  ℕ, zero, suc, ◌≡◌, refl, ap, sym, ◌∙◌, Bool, true, false, not, Option, none, some, List, [], ◌∷◌,
  ◌++◌, nat_eq, list_eq, map, reverse, append-nil, if_cases, Bytes,
}
use app_listener.Recorder.Targets.{backup_suffix}
use app_listener.Recorder.Plan.{PlannedBinary}
use app_listener.Recorder.Apply.{
  Call, encrypted, encrypt_failed, restored, recorded, record_kept, record_failed, forgotten,
  put_done, put_refused, History, PutAnswer, put_ok, put_stale, put_failed, Services, rollback,
  encrypt_all, pin_all, put_config, put_rendered, put_fetched, put_again, put_answered, finish,
  pinned_then, encrypted_then, rendered_then, fetched_then, apply_plan, max_stale_retries,
  check_encryptable,
}

-- What the calls of a run did, in order.
abbrev pub picked : {A : Type 0} → (Call → Option A) → History → List A
picked f [] = []
picked f (c ∷ h) = elim (f c) [ none ↦ picked f h | some a ↦ a ∷ picked f h ]

abbrev pub as_encrypted : Call → Option Bytes
as_encrypted (encrypted p) = some p
as_encrypted _ = none

abbrev pub as_restored : Call → Option Bytes
as_restored (restored p) = some p
as_restored _ = none

abbrev pub as_recorded : Call → Option PlannedBinary
as_recorded (recorded b) = some b
as_recorded _ = none

abbrev pub as_forgotten : Call → Option PlannedBinary
as_forgotten (forgotten b) = some b
as_forgotten _ = none

module _ {A : Type 0} (f : Call → Option A) where
  picked-append : (x y : History) → picked f (x ++ y) ≡ picked f x ++ picked f y
  picked-append [] y = refl
  picked-append (c ∷ x) y = from (f c) (picked-append x y)
    where
      from :
          (o : Option A)
          → picked f (x ++ y) ≡ picked f x ++ picked f y
          → elim o [ none ↦ picked f (x ++ y) | some a ↦ a ∷ picked f (x ++ y) ]
            ≡ elim o [ none ↦ picked f x | some a ↦ a ∷ picked f x ] ++ picked f y
      from none h = h
      from (some a) h = ap (λ l. a ∷ l) h

  -- The calls that `g` makes are of another kind.
  picked-other :
      {B : Type 0} (g : B → Call)
      → ((b : B) → f (g b) ≡ none)
      → (bs : List B) → picked f (map g bs) ≡ []
  picked-other g e [] = refl
  picked-other g e (b ∷ bs) = rw (e b) (picked-other g e bs)

  picked-own :
      (g : A → Call) → ((a : A) → f (g a) ≡ some a) → (as' : List A) → picked f (map g as') ≡ as'
  picked-own g e [] = refl
  picked-own g e (a ∷ as') = rw (e a) (ap (λ l. a ∷ l) (picked-own g e as'))

-- A run so far: what it has migrated and pinned, and nothing undone yet.
abbrev Tidy : History → List Bytes → List PlannedBinary → Type 0
Tidy h paths pins =
    (picked as_encrypted h ≡ paths)
    × (picked as_recorded h ≡ pins)
    × (picked as_restored h ≡ [])
    × (picked as_forgotten h ≡ [])

-- Every migration was to be restored, newest first, and every pin to be forgotten.
abbrev pub IsUndone : History → Type 0
IsUndone h =
    (picked as_restored h ≡ reverse (picked as_encrypted h))
    × (picked as_forgotten h ≡ picked as_recorded h)

module _ (h : History) (paths : List Bytes) (pins : List PlannedBinary) where
  rollback-picked :
      {A : Type 0} (g : Call → Option A) (a b c : List A)
      → picked g h ≡ a
      → picked g (map restored (reverse paths)) ≡ b
      → picked g (map forgotten pins) ≡ c
      → picked g (rollback h paths pins) ≡ (a ++ b) ++ c
  rollback-picked g a b c x y z =
      picked-append g (h ++ map restored (reverse paths)) (map forgotten pins)
      ∙ ap (λ l. l ++ picked g (map forgotten pins))
          (picked-append g h (map restored (reverse paths)))
      ∙ rw (x, y, z) refl

  rollback-IsUndone : Tidy h paths pins → IsUndone (rollback h paths pins)
  rollback-IsUndone (e, r, s, f) = (
    rollback-picked as_restored [] (reverse paths) [] s
          (picked-own as_restored restored (λ p. refl) (reverse paths))
          (picked-other as_restored forgotten (λ b. refl) pins)
        ∙ append-nil (reverse paths)
        ∙ ap reverse (
            sym (
              rollback-picked as_encrypted paths [] [] e
                (picked-other as_encrypted restored (λ p. refl) (reverse paths))
                (picked-other as_encrypted forgotten (λ b. refl) pins)
              ∙ append-nil (paths ++ [])
              ∙ append-nil paths)),
    rollback-picked as_forgotten [] [] pins f
          (picked-other as_forgotten restored (λ p. refl) (reverse paths))
          (picked-own as_forgotten forgotten (λ b. refl) pins)
        ∙ sym (
            rollback-picked as_recorded pins [] [] r
              (picked-other as_recorded restored (λ p. refl) (reverse paths))
              (picked-other as_recorded forgotten (λ b. refl) pins)
            ∙ append-nil (pins ++ [])
            ∙ append-nil pins),
  )

-- One more call.
abbrev one_or_none : {A : Type 0} → Option A → List A
one_or_none none = []
one_or_none (some a) = a ∷ []

picked-single :
    {A : Type 0} (k : Call → Option A) (c : Call) → picked k (c ∷ []) ≡ one_or_none (k c)
picked-single k c = from (k c)
  where
    from : {A : Type 0} (m : Option A) → elim m [ none ↦ [] | some a ↦ a ∷ [] ] ≡ one_or_none m
    from none = refl
    from (some a) = refl

picked-more :
    {A : Type 0} (k : Call → Option A) (h : History) (l : List A) (c : Call) (o : Option A)
    → picked k h ≡ l
    → k c ≡ o
    → picked k (h ++ c ∷ []) ≡ l ++ one_or_none o
picked-more k h l c o x y =
    picked-append k h (c ∷ [])
    ∙ ap (λ m. m ++ picked k (c ∷ [])) x
    ∙ ap (λ m. l ++ m) (picked-single k c ∙ ap one_or_none y)

same-picked :
    {A : Type 0} (k : Call → Option A) (h : History) (l : List A) (c : Call)
    → picked k h ≡ l
    → k c ≡ none
    → picked k (h ++ c ∷ []) ≡ l
same-picked k h l c x y = picked-more k h l c none x y ∙ append-nil l

Tidy-other :
    (h : History) (paths : List Bytes) (pins : List PlannedBinary) (c : Call)
    → Tidy h paths pins
    → as_encrypted c ≡ none
    → as_recorded c ≡ none
    → as_restored c ≡ none
    → as_forgotten c ≡ none
    → Tidy (h ++ c ∷ []) paths pins
Tidy-other h paths pins c (e, r, s, f) a b d g = (
  same-picked as_encrypted h paths c e a,
  same-picked as_recorded h pins c r b,
  same-picked as_restored h [] c s d,
  same-picked as_forgotten h [] c f g,
)

module _ (sv : Services) where
  abbrev TidyPaths : Bool × List Bytes × History → Type 0
  TidyPaths (ok, paths, h) = Tidy h paths []

  encrypt_all-Tidy :
      (h : History) (out ps : List Bytes) → Tidy h out [] → TidyPaths (encrypt_all sv h out ps)
  encrypt_all-Tidy h out [] t = t
  encrypt_all-Tidy h out (p ∷ ps) (e, r, s, f) =
      if_cases TidyPaths (sv.encrypt_ok h p) _ _
        (λ good. encrypt_all-Tidy (h ++ encrypted p ∷ []) (out ++ p ∷ []) ps (
          picked-more as_encrypted h out (encrypted p) (some p) e refl,
          same-picked as_recorded h [] _ r refl,
          same-picked as_restored h [] _ s refl,
          same-picked as_forgotten h [] _ f refl,
        ))
        λ bad. Tidy-other h out [] (encrypt_failed p) (e, r, s, f) refl refl refl refl

  module _ (paths : List Bytes) where
    abbrev TidyPins : Bool × List PlannedBinary × History → Type 0
    TidyPins (ok, pins, h) = Tidy h paths pins

    pin_all-Tidy :
        (h : History) (out bs : List PlannedBinary)
        → Tidy h paths out
        → TidyPins (pin_all sv h out bs)
    pin_all-Tidy h out [] t = t
    pin_all-Tidy h out (b ∷ bs) (e, r, s, f) =
        if_cases TidyPins b.system_placed _ _ (λ root. pin_all-Tidy h out bs (e, r, s, f))
          λ user.
            from (sv.record_if_absent h b)
              (pin_all-Tidy (h ++ record_kept b ∷ []) out bs
                (Tidy-other h paths out (record_kept b) (e, r, s, f) refl refl refl refl))
              (pin_all-Tidy (h ++ recorded b ∷ []) (out ++ b ∷ []) bs (
                same-picked as_encrypted h paths _ e refl,
                picked-more as_recorded h out (recorded b) (some b) r refl,
                same-picked as_restored h [] _ s refl,
                same-picked as_forgotten h [] _ f refl,
              ))
      where
        from :
            (o : Option Bool)
            → TidyPins (pin_all sv (h ++ record_kept b ∷ []) out bs)
            → TidyPins (pin_all sv (h ++ recorded b ∷ []) (out ++ b ∷ []) bs)
            → TidyPins (elim o [
              | none ↦ (false, out, h ++ record_failed b ∷ [])
              | some false ↦ pin_all sv (h ++ record_kept b ∷ []) out bs
              | some true ↦ pin_all sv (h ++ recorded b ∷ []) (out ++ b ∷ []) bs
            ])
        from none k a = Tidy-other h paths out (record_failed b) (e, r, s, f) refl refl refl refl
        from (some false) k a = k
        from (some true) k a = a

    abbrev TidyPut : List PlannedBinary → Option Bytes × History → Type 0
    TidyPut pins (o, h) = Tidy h paths pins

    -- Whatever a further attempt gives, if that is tidy.
    module _ (pins : List PlannedBinary) (again : Bytes → Bytes → Option Bytes × History)
        (rest : (next text : Bytes) → TidyPut pins (again next text)) where
      put_rendered-Tidy :
          (h : History) (next : Bytes) (o : Option Bytes)
          → Tidy h paths pins
          → TidyPut pins (put_rendered sv again h next o)
      put_rendered-Tidy h next none t = t
      put_rendered-Tidy h next (some text) t = rest next text

      put_fetched-Tidy :
          (h : History) (o : Option Bytes)
          → Tidy h paths pins
          → TidyPut pins (put_fetched sv again h o)
      put_fetched-Tidy h none t = t
      put_fetched-Tidy h (some next) t = put_rendered-Tidy h next (sv.render next) t

      put_again-Tidy :
          (h : History) (n : ℕ) → Tidy h paths pins → TidyPut pins (put_again sv again h n)
      put_again-Tidy h zero t = t
      put_again-Tidy h (suc n) t = put_fetched-Tidy h (sv.fetch h) t

      put_answered-Tidy :
          (n : ℕ) (h : History) (text : Bytes) (a : PutAnswer)
          → Tidy h paths pins
          → TidyPut pins (put_answered sv again n h text a)
      put_answered-Tidy n h text put_ok t = Tidy-other h paths pins put_done t refl refl refl refl
      put_answered-Tidy n h text put_failed t =
          Tidy-other h paths pins put_refused t refl refl refl refl
      put_answered-Tidy n h text put_stale t =
          put_again-Tidy (h ++ put_refused ∷ []) n
            (Tidy-other h paths pins put_refused t refl refl refl refl)

    put_config-Tidy :
        (n : ℕ) (h : History) (pins : List PlannedBinary) (base text : Bytes)
        → Tidy h paths pins
        → TidyPut pins (put_config sv n h base text)
    put_config-Tidy zero h pins base text t = t
    put_config-Tidy (suc n) h pins base text t =
        put_answered-Tidy pins (λ next again. put_config sv n (h ++ put_refused ∷ []) next again)
          (λ next again.
            put_config-Tidy n (h ++ put_refused ∷ []) pins next again
              (Tidy-other h paths pins put_refused t refl refl refl refl))
          n h text (sv.put h base text) t

  -- What the answer of `apply` says of the calls.
  abbrev pub Settled : Option (Bytes × List Bytes) × History → Type 0
  Settled (none, h) = IsUndone h
  Settled (some (text, backups), h) =
      (picked as_restored h ≡ [])
      × (picked as_forgotten h ≡ [])
      × (backups ≡ map (λ p. p ++ backup_suffix) (picked as_encrypted h))

  finish-Settled :
      (paths : List Bytes) (pins : List PlannedBinary) (r : Option Bytes × History)
      → TidyPut paths pins r
      → Settled (finish sv paths pins r)
  finish-Settled paths pins (none, h) t = rollback-IsUndone h paths pins t
  finish-Settled paths pins (some text, h) (e, r, s, f) =
      (s, f, ap (map (λ p. p ++ backup_suffix)) (sym e))

  pinned_then-Settled :
      (base text : Bytes) (paths : List Bytes) (r : Bool × List PlannedBinary × History)
      → TidyPins paths r
      → Settled (pinned_then sv base text paths r)
  pinned_then-Settled base text paths (false, pins, h) t = rollback-IsUndone h paths pins t
  pinned_then-Settled base text paths (true, pins, h) t =
      finish-Settled paths pins _ (put_config-Tidy paths max_stale_retries h pins base text t)

  encrypted_then-Settled :
      (base text : Bytes) (bins : List PlannedBinary) (r : Bool × List Bytes × History)
      → TidyPaths r
      → Settled (encrypted_then sv base text bins r)
  encrypted_then-Settled base text bins (false, paths, h) t = rollback-IsUndone h paths [] t
  encrypted_then-Settled base text bins (true, paths, h) t =
      pinned_then-Settled base text paths _ (pin_all-Tidy paths h [] bins t)

  -- Whatever the store, the vault and the ledger answer: when `apply` fails, it has asked to restore every path
  -- that it encrypted, newest first, and to forget every pin that it added; when it succeeds, it has asked for
  -- neither, and it names a backup of exactly the paths that it encrypted.
  pub apply_plan-Settled :
      (paths : List Bytes) (bins : List PlannedBinary) → Settled (apply_plan sv paths bins)
  unfolding apply_plan
  apply_plan-Settled paths bins = fetched (sv.fetch [])
    where
      rendered : (base : Bytes) (o : Option Bytes) → Settled (rendered_then sv paths bins base o)
      rendered base none = (refl, refl)
      rendered base (some text) =
          if_cases Settled (not (check_encryptable sv paths)) (none, []) _ (λ bad. (refl, refl))
            λ good.
              encrypted_then-Settled base text bins (encrypt_all sv [] [] paths)
                (encrypt_all-Tidy [] [] paths (refl, refl, refl, refl))

      fetched : (o : Option Bytes) → Settled (fetched_then sv paths bins o)
      fetched none = (refl, refl)
      fetched (some base) = rendered base (sv.render base)
