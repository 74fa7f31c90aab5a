-- ===== src/Text/Laws.antt =====
-- The tests on texts, and the laws of prefixes and of `strings.Cut`.
use mcp_remote_go.Base.{
  ℕ, ◌≡◌, refl, ap, ◌↔◌, true, false, [], ◌∷◌, ◌++◌, length, drop, arith, ◌==◌, Bytes, Bool-cases,
  inl, inr, Option, some, none,
}
use mcp_remote_go.Text.{text_eq, has_prefix, cons_before, cut}

pub text_eq_iff : (s t : Bytes) → (text_eq s t ≡ true) ↔ (s ≡ t)
unfolding text_eq
text_eq_iff (a ∷ s) (b ∷ t) = ground (arith, text_eq_iff s t)
text_eq_iff _ _ = ground arith

pub text_eq_refl : (s : Bytes) → text_eq s s ≡ true
text_eq_refl s = (text_eq_iff s s).1 refl

pub has_prefix-append : (p s : Bytes) → has_prefix p (p ++ s) ≡ true
unfolding has_prefix
has_prefix-append [] s = refl
has_prefix-append (a ∷ p) s = ground (arith, has_prefix-append p s)

pub drop-append : (p s : Bytes) → drop (length p) (p ++ s) ≡ s
drop-append [] s = refl
drop-append (a ∷ p) s = drop-append p s

pub has_prefix-drop : (p s : Bytes) → has_prefix p s ≡ true → p ++ drop (length p) s ≡ s
unfolding has_prefix
has_prefix-drop [] s h = refl
has_prefix-drop (a ∷ p) (b ∷ s) h = ground (arith, has_prefix-drop p s)
has_prefix-drop (a ∷ p) [] h = ground arith

-- The byte does not stand in the text.
abbrev pub Lacks : ℕ → Bytes → Type 0
Lacks b [] = Unit
Lacks b (a ∷ s) = ((a == b) ≡ false) × Lacks b s

pub Lacks-append : (b : ℕ) (s t : Bytes) → Lacks b s → Lacks b t → Lacks b (s ++ t)
Lacks-append b [] t hs ht = ht
Lacks-append b (a ∷ s) t hs ht = (hs.0, Lacks-append b s t hs.1 ht)

pub cut-append : (sep : ℕ) (s t : Bytes) → Lacks sep s → cut sep (s ++ sep ∷ t) ≡ some (s, t)
unfolding cut
cut-append sep [] t h = ground arith
cut-append sep (a ∷ s) t h = ground (arith, cut-append sep s t h.1)

cons_before-eq-some :
    (a : ℕ) (r : Option (Bytes × Bytes)) {before after : Bytes}
    → cons_before a r ≡ some (before, after)
    → (rest : Bytes) × (r ≡ some (rest, after)) × (before ≡ a ∷ rest)
cons_before-eq-some a none h = ground arith
cons_before-eq-some a (some (b, c)) h = (b, ground arith, ground arith)

pub cut-eq-some :
    (sep : ℕ) (s : Bytes) {before after : Bytes}
    → cut sep s ≡ some (before, after)
    → (s ≡ before ++ sep ∷ after) × Lacks sep before
unfolding cut
cut-eq-some sep [] h = ground arith
cut-eq-some sep (a ∷ s) {before} {after} h = elim (Bool-cases (a == sep)) [
  | inl here ↦ ground arith
  | inr later ↦
      let (rest, found, shape) = cons_before-eq-some a (cut sep s) (rw later at h) in
      let (split, free) = cut-eq-some sep s found in rw shape (ap (◌∷◌ a) split, (later, free))
]
