-- ===== src/Http/Headers.antt =====
-- Header lines, and the order in which the headers of a request are set.
use mcp_remote_go.Base.{
  ◌≡◌, refl, sym, ◌∙◌, ◌↔◌, true, false, List, [], ◌∷◌, arith, if◌then◌else◌, Bytes, map, All,
}
use mcp_remote_go.Text.{equal_fold, lower_byte}
use mcp_remote_go.Http.{HeaderLines, header_get, header_del, header_set, set_all}

equal_fold_iff : (s t : Bytes) → (equal_fold s t ≡ true) ↔ (map lower_byte s ≡ map lower_byte t)
unfolding equal_fold
equal_fold_iff [] [] = ground arith
equal_fold_iff [] (b ∷ t) = ground arith
equal_fold_iff (a ∷ s) [] = ground arith
equal_fold_iff (a ∷ s) (b ∷ t) = ground (arith, equal_fold_iff s t)

pub equal_fold_refl : (s : Bytes) → equal_fold s s ≡ true
equal_fold_refl s = (equal_fold_iff s s).1 refl

equal_fold_trans :
    (s t u : Bytes) → equal_fold s t ≡ true → equal_fold s u ≡ true → equal_fold t u ≡ true
equal_fold_trans s t u h k =
    (equal_fold_iff t u).1 (sym ((equal_fold_iff s t).0 h) ∙ (equal_fold_iff s u).0 k)

header_get-del_ne :
    (name other : Bytes) (hs : HeaderLines)
    → equal_fold other name ≡ false
    → header_get name (header_del other hs) ≡ header_get name hs
unfolding header_get header_del
header_get-del_ne name other [] h = refl
header_get-del_ne name other ((k, v) ∷ hs) h =
    ground (arith, equal_fold_trans k other name, header_get-del_ne name other hs h)

-- A header that was set has its value, and every other header has the one that it had.
pub header_get-set :
    (name other value : Bytes) (hs : HeaderLines)
    → header_get name (header_set other value hs)
      ≡ (if equal_fold other name then value else header_get name hs)
unfolding header_get header_set
header_get-set name other value hs = ground (arith, header_get-del_ne name other hs)

pub header_get-set_self :
    (name value : Bytes) (hs : HeaderLines) → header_get name (header_set name value hs) ≡ value
header_get-set_self name value hs = rw (header_get-set, equal_fold_refl)

-- Headers of other names do not change a header.
pub header_get-set_all :
    (name : Bytes) (m : List (Bytes × Bytes)) (hs : HeaderLines)
    → All (λ p. equal_fold p.0 name ≡ false) m
    → header_get name (set_all m hs) ≡ header_get name hs
unfolding set_all
header_get-set_all name [] hs h = refl
header_get-set_all name ((k, v) ∷ m) hs h =
    header_get-set_all name m (header_set k v hs) h.1 ∙ rw (header_get-set, h.0)
