-- ===== src/Shell/Teardown.antt =====
-- CloseAll of internal/shell/shell.go.
use aw_remote_host.Common.{
  [], Option-cases, String, ◌≡◌, inl, inr, none, arith, eq_refl, if◌then◌else◌, Bool-cases, ℕ, refl,
  subst, ◌⊎◌, Bool, true, false, some, List, ◌∷◌, str_eq, eq_iff,
}
use aw_remote_host.Common.Assoc.{lookup, lookup-erase, Assoc, erase}
use aw_remote_host.Shell.{Manager, remove, mark, keys, remove_each, close_all}

abbrev pub Absent : String → Manager → Type 0
Absent id m = lookup id m.sessions ≡ none

remove-Absent : (id j : String) (m : Manager) → Absent j m → Absent j (remove id m)
unfolding remove
remove-Absent id j m a = elim (Option-cases (lookup id m.sessions)) [
  | inl e ↦ rw e a
  | inr (h, e) ↦ rw e (ground (arith, lookup-erase id j m.sessions, a))
]

pub remove_self : (id : String) (m : Manager) → Absent id (remove id m)
unfolding remove
remove_self id m = elim (Option-cases (lookup id m.sessions)) [
  | inl e ↦ rw e e
  | inr (h, e) ↦ rw e (ground (arith, lookup-erase id id m.sessions, eq_refl id))
]

remove_each-Absent :
    (ids : List String) (j : String) (m : Manager) → Absent j m → Absent j (remove_each ids m)
unfolding remove_each
remove_each-Absent [] j m a = a
remove_each-Absent (id ∷ ids) j m a =
    remove_each-Absent ids j (remove id m) (remove-Absent id j m a)

abbrev occurs : String → List String → Bool
occurs j [] = false
occurs j (id ∷ ids) = if str_eq id j then true else occurs j ids

keys-Absent : (m : Assoc ℕ) (j : String) → occurs j (keys m) ≡ false → lookup j m ≡ none
unfolding lookup
keys-Absent [] j e = refl
keys-Absent ((id, h) ∷ m) j e = elim (Bool-cases (str_eq id j)) [
  | inl same ↦ absurd (ground (arith, same, e))
  | inr other ↦ rw other (keys-Absent m j (ground (arith, other, e)))
]

remove_each-all :
    (ids : List String) (j : String) (m : Manager)
    → occurs j ids ≡ true
    → Absent j (remove_each ids m)
unfolding remove_each
remove_each-all [] j m e = ground (arith, e)
remove_each-all (id ∷ ids) j m e = elim (Bool-cases (str_eq id j)) [
  | inl same ↦
      let name : id ≡ j = (eq_iff id j).0 same in
      remove_each-Absent ids j (remove id m)
        (subst (λ k. Absent k (remove id m)) name (remove_self id m))
  | inr other ↦ remove_each-all ids j (remove id m) (ground (arith, other, e))
]

close_all-Absent : (m : Manager) (j : String) → Absent j (close_all m)
unfolding close_all
close_all-Absent m j = elim (Bool-cases (occurs j (keys m.sessions))) [
  | inl e ↦ remove_each-all (keys m.sessions) j m e
  | inr e ↦ remove_each-Absent (keys m.sessions) j m (keys-Absent m.sessions j e)
]

-- A session that is still there, or closed.
abbrev Kept : String → ℕ → Manager → Type 0
Kept j h m = (lookup j m.sessions ≡ some h) ⊎ (m.closed h ≡ true)

remove-Kept : (id j : String) (h : ℕ) (m : Manager) → Kept j h m → Kept j h (remove id m)
unfolding remove
remove-Kept id j h m k = elim (Option-cases (lookup id m.sessions)) [
  | inl e ↦ rw e k
  | inr (g, e) ↦ rw e (removed g e k)
]
  where
    removed :
        (g : ℕ)
        → lookup id m.sessions ≡ some g
        → Kept j h m
        → (lookup j (erase id m.sessions) ≡ some h) ⊎ (mark g true m.closed h ≡ true)
    removed g e (inr c) = inr (ground (arith, c))
    removed g e (inl s) = elim (Bool-cases (str_eq id j)) [
      | inl same ↦ inr (ground (arith, s, e, same, eq_iff id j))
      | inr other ↦ inl (ground (arith, s, other, lookup-erase id j m.sessions))
    ]

remove_each-Kept :
    (ids : List String) (j : String) (h : ℕ) (m : Manager)
    → Kept j h m
    → Kept j h (remove_each ids m)
unfolding remove_each
remove_each-Kept [] j h m k = k
remove_each-Kept (id ∷ ids) j h m k =
    remove_each-Kept ids j h (remove id m) (remove-Kept id j h m k)

-- After CloseAll no id has a session, and every terminal that was a session before it is closed.
pub close_all-IsComplete :
    (m : Manager) (id j : String) (h : ℕ)
    → lookup j m.sessions ≡ some h
    → (lookup id (close_all m).sessions ≡ none) × ((close_all m).closed h ≡ true)
unfolding close_all
close_all-IsComplete m id j h e = (close_all-Absent m id, closed_now)
  where
    closed_now : (close_all m).closed h ≡ true
    closed_now = elim (remove_each-Kept (keys m.sessions) j h m (inl e)) [
      | inl s ↦ let gone = close_all-Absent m j in absurd (ground (arith, s, gone))
      | inr c ↦ c
    ]
