-- ===== src/Session/Guards.antt =====
-- internal/usecase/tempgrant.go, `guardsForLocked`: the guards of the paths asked for.
use app_listener.Base.{
  ℕ, ◌≡◌, ◌≢◌, refl, ◌∙◌, sym, ap, Bool, true, false, Bool-cases, inl, inr, Option, none, some,
  List, [], ◌∷◌, ◌==◌, list_eq, nat_eq, Bytes, bytes_iff, if◌then◌else◌, contains, arith,
}
use app_listener.Base.Assoc.{lookup}
use app_listener.Base.State.{not_guarded, Result, ok, err}
use app_listener.Session.{guards_for}

-- The guard of `p` is among `gs`.
abbrev pub Serves : List (Bytes × ℕ) → List ℕ → Bytes → Type 0
Serves resources gs p = (g : ℕ) × (lookup p resources ≡ some g) × (contains gs g ≡ true)

clash : true ≢ false
clash e = cc

-- When the guards are found, every path asked for is a guarded resource's, and its guard is among them.
pub guards_for-Serves :
    (resources : List (Bytes × ℕ)) (seen paths : List Bytes) (gs : List ℕ)
    → guards_for resources seen paths ≡ ok gs
    → (p : Bytes) → contains paths p ≡ true
    → contains seen p ≡ false
    → Serves resources gs p
unfolding guards_for
guards_for-Serves resources seen [] gs e p h k = ground arith
guards_for-Serves resources seen (q ∷ paths) gs e p h k =
    step (contains seen q) refl (lookup q resources) refl (guards_for resources (q ∷ seen) paths)
      refl (λ e'. guards_for-Serves resources seen paths gs e' p)
      (λ gs' e'. guards_for-Serves resources (q ∷ seen) paths gs' e' p) e
  where
    known : q ≡ p → contains seen q ≡ contains seen p
    known e = ap (contains seen) e

    later : (q == p) ≡ false → contains (q ∷ paths) p ≡ true → contains paths p ≡ true
    later n h = ground arith

    head : {g : ℕ} {rest : List ℕ} → ok (g ∷ rest) ≡ ok gs → contains gs g ≡ true
    head e = ground arith

    tail :
        {g : ℕ} {rest : List ℕ} (x : ℕ)
        → contains rest x ≡ true
        → ok (g ∷ rest) ≡ ok gs
        → contains gs x ≡ true
    tail x i e = ground arith

    step :
        (skip : Bool)
        → contains seen q ≡ skip
        → (o : Option ℕ) → lookup q resources ≡ o
        → (r : Result (List ℕ)) → guards_for resources (q ∷ seen) paths ≡ r
        → (guards_for resources seen paths ≡ ok gs
            → contains paths p ≡ true
            → contains seen p ≡ false
            → Serves resources gs p)
        → ((gs' : List ℕ)
            → guards_for resources (q ∷ seen) paths ≡ ok gs'
            → contains paths p ≡ true
            → contains (q ∷ seen) p ≡ false
            → Serves resources gs' p)
        → (if skip then guards_for resources seen paths else elim o [
          | none ↦ err not_guarded
          | some g ↦ elim r [ ok rest ↦ ok (g ∷ rest) | err x ↦ err x ]
        ])
          ≡ ok gs
        → Serves resources gs p
    step true s o a r b ih ih' e =
        ih e
          (elim (Bool-cases (q == p)) [
            | inl same ↦ absurd (clash (sym s ∙ known ((bytes_iff q p).0 same) ∙ k))
            | inr other ↦ later other h
          ])
          k
    step false s none a r b ih ih' e = cc
    step false s (some g) a (err x) b ih ih' e = cc
    step false s (some g) a (ok rest) b ih ih' e = elim (Bool-cases (q == p)) [
      | inl same ↦ (g, ap (λ x. lookup x resources) (sym ((bytes_iff q p).0 same)) ∙ a, head e)
      | inr other ↦
          let (g', found, among) = ih' rest b (later other h) (rw other k) in
          (g', found, tail g' among e)
    ]
