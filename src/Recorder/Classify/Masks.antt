-- ===== src/Recorder/Classify/Masks.antt =====
-- internal/recorder: the proposed event list.
use app_listener.Base.{
  ℕ, ◌≡◌, refl, ap, ◌∙◌, Bool, true, false, ◌&&◌, ◌||◌, List, ◌==◌, nat_eq, list_eq, contains,
  contains-filter, arith,
}
use app_listener.Recorder.Classify.{all_types, wanted, mask_types}

-- The proposed mask has a type exactly when it is an event type and was seen, or is STAT, or is READ where OPEN
-- was seen.
pub contains-mask_types :
    (ops : List ℕ) (t : ℕ)
    → contains (mask_types ops) t
      ≡ (contains all_types t && ((t == 10) || ((contains ops 0 && (t == 1)) || contains ops t)))
unfolding mask_types
contains-mask_types ops t =
    contains-filter (contains (wanted ops)) all_types t
    ∙ ap (λ b. contains all_types t && b) (in_wanted (contains ops 0) refl)
  where
    in_wanted :
        (b : Bool)
        → contains ops 0 ≡ b
        → contains (wanted ops) t ≡ ((t == 10) || ((contains ops 0 && (t == 1)) || contains ops t))
    in_wanted true e = rw e (ground arith)
    in_wanted false e = rw e (ground arith)
