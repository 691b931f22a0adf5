-- ===== src/Wire/Mounts/Escapes.antt =====
-- internal/infrastructure: `unescapeMountinfo` undoes the kernel's escapes.
use app_listener.Base.{
  sym, ℕ, ◌+◌, ◌/◌, ◌%◌, ◌≡◌, refl, ap, ◌∙◌, ◌⊎◌, inl, inr, Bool, true, false, ◌||◌, [], ◌∷◌, ◌==◌,
  nat_eq, if◌then◌else◌, if_cases, Bytes, arith,
}
use app_listener.Wire.Mounts.{unescape_mountinfo}

-- The bytes that the kernel writes as a backslash and three octal digits.
abbrev pub is_mangled : ℕ → Bool
is_mangled c = (c == 32) || ((c == 9) || ((c == 10) || (c == 92)))

abbrev pub mangled : ℕ → Bytes → Bytes
mangled c s = 92 ∷ (48 + c / 64) ∷ (48 + c / 8 % 8) ∷ (48 + c % 8) ∷ s

-- What the kernel writes for a path.
abbrev pub escape_path : Bytes → Bytes
escape_path [] = []
escape_path (c ∷ s) = if is_mangled c then mangled c (escape_path s) else c ∷ escape_path s

unescape-plain :
    (c : ℕ) (s : Bytes) → (c == 92) ≡ false → unescape_mountinfo (c ∷ s) ≡ c ∷ unescape_mountinfo s
unfolding unescape_mountinfo
unescape-plain c [] h = refl
unescape-plain c (d ∷ []) h = refl
unescape-plain c (d ∷ e ∷ []) h = refl
unescape-plain c (d ∷ e ∷ f ∷ s) h = rw h refl

mangled_cases : (c : ℕ) → is_mangled c ≡ true → (c ≡ 32) ⊎ ((c ≡ 9) ⊎ ((c ≡ 10) ⊎ (c ≡ 92)))
mangled_cases c h = ground arith

unescape-mangled :
    (c : ℕ) (s : Bytes)
    → is_mangled c ≡ true
    → unescape_mountinfo (mangled c s) ≡ c ∷ unescape_mountinfo s
unfolding unescape_mountinfo
unescape-mangled c s h = elim (mangled_cases c h) [
  | inl e ↦ from 32 e refl
  | inr (inl e) ↦ from 9 e refl
  | inr (inr (inl e)) ↦ from 10 e refl
  | inr (inr (inr e)) ↦ from 92 e refl
]
  where
    from :
        (k : ℕ)
        → c ≡ k
        → unescape_mountinfo (mangled k s) ≡ k ∷ unescape_mountinfo s
        → unescape_mountinfo (mangled c s) ≡ c ∷ unescape_mountinfo s
    from k e h =
        ap (λ x. unescape_mountinfo (mangled x s)) e
        ∙ h
        ∙ ap (λ x. x ∷ unescape_mountinfo s) (sym e)

-- Every path that the kernel escapes reads back as it is, whatever bytes it holds.
pub unescape-escape_path : (s : Bytes) → unescape_mountinfo (escape_path s) ≡ s
unfolding unescape_mountinfo
unescape-escape_path [] = refl
unescape-escape_path (c ∷ s) =
    if_cases (λ t. unescape_mountinfo t ≡ c ∷ s) (is_mangled c) (mangled c (escape_path s))
      (c ∷ escape_path s)
      (λ h. unescape-mangled c (escape_path s) h ∙ ap (λ t. c ∷ t) (unescape-escape_path s))
      λ h.
        unescape-plain c (escape_path s) (ground arith) ∙ ap (λ t. c ∷ t) (unescape-escape_path s)
