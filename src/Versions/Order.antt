-- ===== src/Versions/Order.antt =====
-- The order of compareVersions of internal/state/state.go.
use aw_remote_host.Common.{
  [], ℕ, zero, suc, ◌≡◌, refl, ◌≢◌, List, ◌∷◌, arith, ltb, ltb→lt, Bool-cases, ◌<◌, sym, ◌∙◌, ◌⊎◌,
  inl, inr,
}
use aw_remote_host.Versions.{Sign, compare_part, compare_parts, less, equal, greater}

abbrev pub flip : Sign → Sign
flip less = greater
flip equal = equal
flip greater = less

abbrev pub first_sign : ℕ → ℕ → Sign
first_sign a b = compare_part a b equal

compare_part-flip : (a b : ℕ) (s : Sign) → compare_part b a (flip s) ≡ flip (compare_part a b s)
compare_part-flip a b s = ground arith

-- Comparing two versions the other way round gives the other sign.
pub compare_parts-flip : (xs ys : List ℕ) → compare_parts ys xs ≡ flip (compare_parts xs ys)
unfolding compare_parts
compare_parts-flip [] [] = refl
compare_parts-flip (a ∷ xs) [] = rw (compare_parts-flip xs []) (compare_part-flip a 0 _)
compare_parts-flip [] (b ∷ ys) = rw (compare_parts-flip [] ys) (compare_part-flip 0 b _)
compare_parts-flip (a ∷ xs) (b ∷ ys) = rw (compare_parts-flip xs ys) (compare_part-flip a b _)

-- The number at a position of a version, 0 behind its end.
unfoldable pub part : List ℕ → ℕ → ℕ
part [] i = 0
part (a ∷ xs) zero = a
part (a ∷ xs) (suc i) = part xs i

abbrev pub NotLess : List ℕ → List ℕ → Type 0
NotLess xs ys = compare_parts xs ys ≢ less

-- What a comparison that is not `less` found first.
abbrev Found : ℕ → ℕ → Sign → Type 0
Found a b r = (b < a) ⊎ ((a ≡ b) × (r ≢ less))

compare_part-Found : (a b : ℕ) (r : Sign) → compare_part a b r ≢ less → Found a b r
compare_part-Found a b r h = elim (Bool-cases (ltb a b)) [
  | inl lt ↦ let l : compare_part a b r ≡ less = rw lt refl in absurd (h l)
  | inr ge ↦ elim (Bool-cases (ltb b a)) [
    | inl gt ↦ inl (ltb→lt b a gt)
    | inr le ↦
        let e : compare_part a b r ≡ r = rw ge (rw le refl) in
        inr (ground (arith, ge, le), λ l. h (e ∙ l))
  ]
]

Found-compare_part : (a b : ℕ) (r : Sign) → Found a b r → compare_part a b r ≢ less
Found-compare_part a b r (inl gt) =
    let e : compare_part a b r ≡ greater = ground arith in λ l. ground (arith, e, l)
Found-compare_part a b r (inr (same, n)) =
    let e : compare_part a b r ≡ r = ground arith in λ l. n (sym e ∙ l)

compare_part_trans :
    (a b c : ℕ) (r s t : Sign)
    → (r ≢ less → s ≢ less → t ≢ less)
    → compare_part a b r ≢ less
    → compare_part b c s ≢ less
    → compare_part a c t ≢ less
compare_part_trans a b c r s t f h k =
    Found-compare_part a c t (Found-trans (compare_part-Found a b r h) (compare_part-Found b c s k))
  where
    Found-trans : Found a b r → Found b c s → Found a c t
    Found-trans (inl x) (inl y) = inl (omega arith)
    Found-trans (inl x) (inr (y, n)) = inl (omega arith)
    Found-trans (inr (x, m)) (inl y) = inl (omega arith)
    Found-trans (inr (x, m)) (inr (y, n)) = inr (omega arith, f m n)

-- Being at least as new is transitive.
pub compare_parts_trans : (xs ys zs : List ℕ) → NotLess xs ys → NotLess ys zs → NotLess xs zs
unfolding compare_parts
compare_parts_trans [] [] zs h k = k
compare_parts_trans (a ∷ xs) [] [] h k = h
compare_parts_trans [] (b ∷ ys) [] h k =
    compare_part_trans 0 b 0 _ _ _ (compare_parts_trans [] ys []) h k
compare_parts_trans [] (b ∷ ys) (c ∷ zs) h k =
    compare_part_trans 0 b c _ _ _ (compare_parts_trans [] ys zs) h k
compare_parts_trans (a ∷ xs) [] (c ∷ zs) h k =
    compare_part_trans a 0 c _ _ _ (compare_parts_trans xs [] zs) h k
compare_parts_trans (a ∷ xs) (b ∷ ys) [] h k =
    compare_part_trans a b 0 _ _ _ (compare_parts_trans xs ys []) h k
compare_parts_trans (a ∷ xs) (b ∷ ys) (c ∷ zs) h k =
    compare_part_trans a b c _ _ _ (compare_parts_trans xs ys zs) h k
