-- ===== src/Text/Trim.antt =====
-- `TrimSpace` at texts with no white space at their ends.
use mcp_remote_go.Base.{
  false, is_nil, append_assoc, append-nil, ap, sym, ◌∙◌, if◌then◌else◌, ℕ, ◌≡◌, refl, Bool, true,
  not, ◌&&◌, [], ◌∷◌, ◌++◌, reverse, reverse-append, reverse-reverse, arith, ltb, Bytes, &&_iff,
}
use mcp_remote_go.Text.{is_space, space_width, space_width_back, skip_space, trim_space}

-- An ASCII byte that is no white space.
abbrev pub is_edge : ℕ → Bool
is_edge c = ltb c 128 && not (is_space c)

abbrev pub starts_well : Bytes → Bool
starts_well [] = true
starts_well (c ∷ s) = is_edge c

-- Empty, or with such a byte at both ends.
unfoldable pub is_tidy : Bytes → Bool
is_tidy s = starts_well s && starts_well (reverse s)

pub starts_well-append :
    (s t : Bytes) → starts_well s ≡ true → starts_well t ≡ true → starts_well (s ++ t) ≡ true
starts_well-append [] t hs ht = ht
starts_well-append (c ∷ s) t hs ht = hs

space_width_edge : (s : Bytes) → starts_well s ≡ true → space_width s ≡ 0
unfolding space_width
space_width_edge [] h = refl
space_width_edge (a ∷ []) h = ground arith
space_width_edge (a ∷ b ∷ []) h = ground arith
space_width_edge (a ∷ b ∷ c ∷ s) h = ground arith

space_width_back_edge : (s : Bytes) → starts_well s ≡ true → space_width_back s ≡ 0
unfolding space_width_back
space_width_back_edge [] h = refl
space_width_back_edge (a ∷ []) h = ground arith
space_width_back_edge (a ∷ b ∷ []) h = ground arith
space_width_back_edge (a ∷ b ∷ c ∷ s) h = ground arith

skip_space_none : (width : Bytes → ℕ) (s : Bytes) → width s ≡ 0 → skip_space width 0 s ≡ s
unfolding skip_space
skip_space_none width [] h = refl
skip_space_none width (a ∷ s) h = ground arith

skip_space_one :
    (width : Bytes → ℕ) (a : ℕ) (s : Bytes)
    → width (a ∷ s) ≡ 1
    → skip_space width 0 (a ∷ s) ≡ skip_space width 0 s
unfolding skip_space
skip_space_one width a s h = ground arith

space_width_back_line : (s : Bytes) → space_width_back (10 ∷ s) ≡ 1
unfolding space_width_back
space_width_back_line [] = refl
space_width_back_line (a ∷ []) = refl
space_width_back_line (a ∷ b ∷ s) = refl

tidy_ends :
    (s : Bytes) → is_tidy s ≡ true → (starts_well s ≡ true) × (starts_well (reverse s) ≡ true)
unfolding is_tidy
tidy_ends s h = (&&_iff (starts_well s) (starts_well (reverse s))).0 h

-- A tidy text is not changed.
pub trim_space-tidy : (s : Bytes) → is_tidy s ≡ true → trim_space s ≡ s
unfolding trim_space is_tidy
trim_space-tidy s h =
    let (front, back) = tidy_ends s h in
    rw (skip_space_none space_width s (space_width_edge s front)) (
      rw (skip_space_none space_width_back (reverse s) (space_width_back_edge (reverse s) back))
        (reverse-reverse s))

pub is_tidy-append : (s t : Bytes) → is_tidy s ≡ true → is_tidy t ≡ true → is_tidy (s ++ t) ≡ true
unfolding is_tidy
is_tidy-append s t hs ht = rw (reverse-append s t) (
    (&&_iff (starts_well (s ++ t)) (starts_well (reverse t ++ reverse s))).1 (
      starts_well-append s t (tidy_ends s hs).0 (tidy_ends t ht).0,
      starts_well-append (reverse t) (reverse s) (tidy_ends t ht).1 (tidy_ends s hs).1,
    ))

trim_back_line :
    (s : Bytes) → is_tidy s ≡ true → reverse (skip_space space_width_back 0 (10 ∷ reverse s)) ≡ s
trim_back_line s h =
    rw (skip_space_one space_width_back 10 (reverse s) (space_width_back_line (reverse s))) (
      rw
        (skip_space_none space_width_back (reverse s)
          (space_width_back_edge (reverse s) (tidy_ends s h).1))
        (reverse-reverse s))

-- Nor one that stands before the end of its line.
pub trim_space-line : (s : Bytes) → is_tidy s ≡ true → trim_space (s ++ 10 ∷ []) ≡ s
unfolding trim_space is_tidy
trim_space-line [] h = refl
trim_space-line (a ∷ s) h =
    rw
      (skip_space_none space_width (a ∷ (s ++ 10 ∷ []))
        (space_width_edge (a ∷ (s ++ 10 ∷ [])) (tidy_ends (a ∷ s) h).0))
      (rw (reverse-append (a ∷ s) (10 ∷ [])) (trim_back_line (a ∷ s) h))

space_width_blank : (s : Bytes) → space_width (32 ∷ s) ≡ 1
unfolding space_width
space_width_blank [] = refl
space_width_blank (a ∷ []) = refl
space_width_blank (a ∷ b ∷ s) = refl

-- Nor one behind a blank.
pub trim_space-blank : (s : Bytes) → is_tidy s ≡ true → trim_space (32 ∷ s) ≡ s
unfolding trim_space
trim_space-blank s h =
    rw (skip_space_one space_width 32 s (space_width_blank s)) (trim_space-tidy s h)

-- A field of an event behind its colon, with a blank or without one.
abbrev pub pad : Bool → Bytes → Bytes
pad b s = if b then 32 ∷ s else s

-- What trimming the line leaves of it.
abbrev pub kept : Bool → Bytes → Bytes
kept b [] = []
kept b (c ∷ s) = pad b (c ∷ s)

is_nil-append_one : (s : Bytes) (c : ℕ) → is_nil (s ++ c ∷ []) ≡ false
is_nil-append_one [] c = refl
is_nil-append_one (a ∷ s) c = refl

is_nil-reverse : (c : ℕ) (s : Bytes) → is_nil (reverse (c ∷ s)) ≡ false
is_nil-reverse c s = rw (reverse-append (c ∷ []) s) (is_nil-append_one (reverse s) c)

starts_well-full :
    (s t : Bytes) → is_nil s ≡ false → starts_well s ≡ true → starts_well (s ++ t) ≡ true
starts_well-full [] t full h = absurd (ground arith)
starts_well-full (c ∷ s) t full h = h

is_tidy-blank :
    (a : ℕ) (p : Bytes) (c : ℕ) (s : Bytes)
    → is_tidy (a ∷ p) ≡ true
    → is_tidy (c ∷ s) ≡ true
    → is_tidy ((a ∷ p) ++ 32 ∷ c ∷ s) ≡ true
unfolding is_tidy
is_tidy-blank a p c s hp hs =
    let t = (a ∷ p) ++ 32 ∷ [] in
    let split : t ++ (c ∷ s) ≡ (a ∷ p) ++ 32 ∷ c ∷ s = append_assoc (a ∷ p) (32 ∷ []) (c ∷ s) in
    let back : starts_well (reverse (t ++ (c ∷ s))) ≡ true = rw (reverse-append t (c ∷ s)) (
      starts_well-full (reverse (c ∷ s)) (reverse t) (is_nil-reverse c s)
        (tidy_ends (c ∷ s) hs).1) in
    (&&_iff (starts_well ((a ∷ p) ++ 32 ∷ c ∷ s)) (starts_well (reverse ((a ∷ p) ++ 32 ∷ c ∷ s)))).1
      ((tidy_ends (a ∷ p) hp).0, sym (ap (λ x. starts_well (reverse x)) split) ∙ back)

space_width_back_blank : (s : Bytes) → space_width_back (32 ∷ s) ≡ 1
unfolding space_width_back
space_width_back_blank [] = refl
space_width_back_blank (a ∷ []) = refl
space_width_back_blank (a ∷ b ∷ s) = refl

trim_space-blank_line :
    (a : ℕ) (p : Bytes) → is_tidy (a ∷ p) ≡ true → trim_space ((a ∷ p) ++ 32 ∷ 10 ∷ []) ≡ a ∷ p
unfolding trim_space
trim_space-blank_line a p h =
    rw
      (skip_space_none space_width (a ∷ (p ++ 32 ∷ 10 ∷ []))
        (space_width_edge (a ∷ (p ++ 32 ∷ 10 ∷ [])) (tidy_ends (a ∷ p) h).0))
      (rw (reverse-append (a ∷ p) (32 ∷ 10 ∷ [])) (
        rw
          (skip_space_one space_width_back 10 (32 ∷ reverse (a ∷ p))
            (space_width_back_line (32 ∷ reverse (a ∷ p))))
          (rw
            (skip_space_one space_width_back 32 (reverse (a ∷ p))
              (space_width_back_blank (reverse (a ∷ p))))
            (rw
              (skip_space_none space_width_back (reverse (a ∷ p))
                (space_width_back_edge (reverse (a ∷ p)) (tidy_ends (a ∷ p) h).1))
              (reverse-reverse (a ∷ p))))))

-- The line of a field, trimmed.
pub trim_space-field :
    (a : ℕ) (p : Bytes) (b : Bool) (s : Bytes)
    → is_tidy (a ∷ p) ≡ true
    → is_tidy s ≡ true
    → trim_space (((a ∷ p) ++ pad b s) ++ 10 ∷ []) ≡ (a ∷ p) ++ kept b s
trim_space-field a p true [] hp hs =
    ap trim_space (append_assoc (a ∷ p) (32 ∷ []) (10 ∷ []))
    ∙ trim_space-blank_line a p hp
    ∙ sym (append-nil (a ∷ p))
trim_space-field a p false [] hp hs =
    trim_space-line ((a ∷ p) ++ []) (is_tidy-append (a ∷ p) [] hp hs)
trim_space-field a p true (c ∷ s) hp hs =
    trim_space-line ((a ∷ p) ++ 32 ∷ c ∷ s) (is_tidy-blank a p c s hp hs)
trim_space-field a p false (c ∷ s) hp hs =
    trim_space-line ((a ∷ p) ++ c ∷ s) (is_tidy-append (a ∷ p) (c ∷ s) hp hs)

-- Its value, trimmed.
pub trim_space-kept : (b : Bool) (s : Bytes) → is_tidy s ≡ true → trim_space (kept b s) ≡ s
trim_space-kept b [] h = trim_space-tidy [] h
trim_space-kept true (c ∷ s) h = trim_space-blank (c ∷ s) h
trim_space-kept false (c ∷ s) h = trim_space-tidy (c ∷ s) h
