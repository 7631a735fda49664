-- ===== src/Firewall/Order.antt =====
-- The stable sort by priority: its result is sorted, and the first rule of it that satisfies a
-- test is the one of least priority, the earliest to arrive among equals.
use aw_remote_host.Common.{
  ◌≡◌, refl, Bool, true, false, Option, none, some, List, [], ◌∷◌, arith, if◌then◌else◌, All,
  Bool-cases, inl, inr,
}
use aw_remote_host.Common.Int.{ltb_ℤ}
use aw_remote_host.Firewall.{Rule, insert_rule, stable_sort}

-- `y` does not come before `x`.
abbrev pub NotBefore : Rule → Rule → Type 0
NotBefore x y = ltb_ℤ y.priority x.priority ≡ false

abbrev pub IsSorted : List Rule → Type 0
IsSorted [] = Unit
IsSorted (x ∷ xs) = All (NotBefore x) xs × IsSorted xs

unfoldable pub find_first : (Rule → Bool) → List Rule → Option Rule
find_first m [] = none
find_first m (x ∷ xs) = if m x then some x else find_first m xs

-- The better of a rule and one that arrived later.
abbrev pub better : Rule → Option Rule → Option Rule
better x none = some x
better x (some y) = if ltb_ℤ y.priority x.priority then some y else some x

-- Of the rules that satisfy `m`, the one of least priority, the earliest among equals.
unfoldable pub most_urgent : (Rule → Bool) → List Rule → Option Rule
most_urgent m [] = none
most_urgent m (x ∷ xs) = let rest = most_urgent m xs in if m x then better x rest else rest

NotBefore-trans : (x y z : Rule) → NotBefore x y → NotBefore y z → NotBefore x z
NotBefore-trans x y z h k = ground arith

NotBefore-All :
    (x y : Rule) (zs : List Rule) → NotBefore x y → All (NotBefore y) zs → All (NotBefore x) zs
NotBefore-All x y [] h k = tt
NotBefore-All x y (z ∷ zs) h k = (NotBefore-trans x y z h k.0, NotBefore-All x y zs h k.1)

All-insert_rule :
    (w x : Rule) (ys : List Rule)
    → NotBefore w x
    → All (NotBefore w) ys
    → All (NotBefore w) (insert_rule x ys)
unfolding insert_rule
All-insert_rule w x [] p h = (p, tt)
All-insert_rule w x (y ∷ ys) p h = elim (Bool-cases (ltb_ℤ y.priority x.priority)) [
  | inl e ↦ rw e (h.0, All-insert_rule w x ys p h.1)
  | inr e ↦ rw e (p, h)
]

before-NotBefore : (x y : Rule) → ltb_ℤ y.priority x.priority ≡ true → NotBefore y x
before-NotBefore x y h = ground arith

insert_rule-IsSorted : (x : Rule) (ys : List Rule) → IsSorted ys → IsSorted (insert_rule x ys)
unfolding insert_rule
insert_rule-IsSorted x [] h = (tt, tt)
insert_rule-IsSorted x (y ∷ ys) h = elim (Bool-cases (ltb_ℤ y.priority x.priority)) [
  | inl e ↦
      rw e (All-insert_rule y x ys (before-NotBefore x y e) h.0, insert_rule-IsSorted x ys h.1)
  | inr e ↦ rw e ((e, NotBefore-All x y ys e h.0), h)
]

pub stable_sort-IsSorted : (xs : List Rule) → IsSorted (stable_sort xs)
unfolding stable_sort
stable_sort-IsSorted [] = tt
stable_sort-IsSorted (x ∷ xs) = insert_rule-IsSorted x (stable_sort xs) (stable_sort-IsSorted xs)

-- Nothing found among rules that are not before `x` beats it.
better_of_All :
    (m : Rule → Bool) (x : Rule) (ys : List Rule)
    → All (NotBefore x) ys
    → better x (find_first m ys) ≡ some x
unfolding find_first
better_of_All m x [] h = refl
better_of_All m x (y ∷ ys) h = elim (Bool-cases (m y)) [
  | inl e ↦ rw e (rw h.0)
  | inr e ↦ rw e (better_of_All m x ys h.1)
]

find_first-insert_rule :
    (m : Rule → Bool) (x : Rule) (ys : List Rule)
    → IsSorted ys
    → find_first m (insert_rule x ys)
      ≡ (if m x then better x (find_first m ys) else find_first m ys)
unfolding find_first insert_rule
find_first-insert_rule m x [] h = ground arith
find_first-insert_rule m x (y ∷ ys) h =
    ground
      (arith, find_first-insert_rule m x ys h.1, better_of_All m x ys (NotBefore-All x y ys _ h.0))

pub find_first-stable_sort :
    (m : Rule → Bool) (xs : List Rule) → find_first m (stable_sort xs) ≡ most_urgent m xs
unfolding stable_sort most_urgent
find_first-stable_sort m [] = unfold find_first in refl
find_first-stable_sort m (x ∷ xs) =
    rw (find_first-insert_rule m x (stable_sort xs) (stable_sort-IsSorted xs))
      (rw (find_first-stable_sort m xs) refl)
