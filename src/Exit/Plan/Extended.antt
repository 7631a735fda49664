-- ===== src/Exit/Plan/Extended.antt =====
-- What the additions of PlanExclusions of internal/vpn/exit.go add, each prefix once.
use Prim.Native.String.{◌++◌ as append}
use aw_remote_host.Common.{
  [], Bool-cases, String, ◌≡◌, refl, sym, ap, ◌∙◌, inl, inr, Bool, true, false, ◌||◌, List, ◌∷◌,
  ◌++◌, map, arith, str_eq, eq_iff,
}
use aw_remote_host.Exit.Rules.{Exclusion}
use aw_remote_host.Exit.Plan.{has, add, add_addresses, add_locals, add_blocks, LocalPrefix}

abbrev pub member : String → List String → Bool
member q [] = false
member q (p ∷ ps) = str_eq p q || member q ps

-- No prefix stands there twice.
abbrev pub IsDistinct : List Exclusion → Type 0
IsDistinct [] = Unit {0}
IsDistinct (e ∷ es) = (has e.prefix es ≡ false) × IsDistinct es

or_assoc : (a b c : Bool) → ((a || b) || c) ≡ (a || (b || c))
or_assoc true b c = refl
or_assoc false b c = refl

or_nothing : (a : Bool) → (a || false) ≡ a
or_nothing true = refl
or_nothing false = refl

has-append :
    (q : String) (es : List Exclusion) (e : Exclusion)
    → has q (es ++ e ∷ []) ≡ (has q es || str_eq e.prefix q)
has-append q [] e = or_nothing (str_eq e.prefix q)
has-append q (x ∷ es) e =
    ap (λ b. str_eq x.prefix q || b) (has-append q es e)
    ∙ sym (or_assoc (str_eq x.prefix q) (has q es) (str_eq e.prefix q))

has_same : (p q : String) (es : List Exclusion) → str_eq p q ≡ true → has p es ≡ has q es
has_same p q es h = ap (λ s. has s es) ((eq_iff p q).0 h)

has-add :
    (q p reason : String) (es : List Exclusion) → has q (add p reason es) ≡ (has q es || str_eq p q)
unfolding add
has-add q p reason es = elim (Bool-cases (has p es)) [
  | inl there ↦ rw there (elim (Bool-cases (str_eq p q)) [
    | inl same ↦ let h = has_same p q es same in ground (arith, h, there, same)
    | inr other ↦ rw other (sym (or_nothing (has q es)))
  ])
  | inr new ↦ rw new (has-append q es _)
]

append-IsDistinct :
    (es : List Exclusion) (e : Exclusion)
    → has e.prefix es ≡ false
    → IsDistinct es
    → IsDistinct (es ++ e ∷ [])
append-IsDistinct [] e h d = (refl, tt)
append-IsDistinct (x ∷ es) e h (n, d) = (
  has-append x.prefix es e
      ∙ let f : str_eq e.prefix x.prefix ≡ false =
          ground (arith, h, eq_iff x.prefix e.prefix, eq_iff e.prefix x.prefix) in
        rw n f,
  append-IsDistinct es e (ground (arith, h)) d,
)

add-IsDistinct :
    (p reason : String) (es : List Exclusion) → IsDistinct es → IsDistinct (add p reason es)
unfolding add
add-IsDistinct p reason es d = elim (Bool-cases (has p es)) [
  | inl there ↦ rw there d
  | inr new ↦ rw new (append-IsDistinct es _ new d)
]

-- A list of exclusions that was extended by some prefixes.
pub record Extended (ps : List String) (es es' : List Exclusion) : Type 0 where
  pub holds : (q : String) → has q es' ≡ (has q es || member q ps)
  pub distinct : IsDistinct es → IsDistinct es'

pub nothing_more : (es : List Exclusion) → Extended [] es es
nothing_more es = record { holds = λ q. sym (or_nothing (has q es)); distinct = λ d. d }

pub add_then :
    (p reason : String) (ps : List String) (es es' : List Exclusion)
    → Extended ps (add p reason es) es'
    → Extended (p ∷ ps) es es'
add_then p reason ps es es' x = record {
  holds = λ q.
      x.holds q
      ∙ (ap (λ b. b || member q ps) (has-add q p reason es)
          ∙ or_assoc (has q es) (str_eq p q) (member q ps));
  distinct = λ d. x.distinct (add-IsDistinct p reason es d);
}

abbrev pub addresses : List String → List String
addresses = map (λ ip. append ip "/32")

pub add_addresses-Extended :
    (host : String) (ips : List String) (es : List Exclusion)
    → Extended (addresses ips) es (add_addresses host ips es)
unfolding add_addresses
add_addresses-Extended host [] es = nothing_more es
add_addresses-Extended host (ip ∷ ips) es =
    add_then (append ip "/32") _ (addresses ips) es _ (add_addresses-Extended host ips _)

pub add_locals-Extended :
    (ls : List LocalPrefix) (es : List Exclusion)
    → Extended (map (λ (l : LocalPrefix). l.prefix) ls) es (add_locals ls es)
unfolding add_locals
add_locals-Extended [] es = nothing_more es
add_locals-Extended (l ∷ ls) es = add_then l.prefix _ _ es _ (add_locals-Extended ls _)

pub add_blocks-Extended :
    (ps : List String) (es : List Exclusion) → Extended ps es (add_blocks ps es)
unfolding add_blocks
add_blocks-Extended [] es = nothing_more es
add_blocks-Extended (p ∷ ps) es = add_then p _ ps es _ (add_blocks-Extended ps _)

member-append : (q : String) (a b : List String) → member q (a ++ b) ≡ (member q a || member q b)
member-append q [] b = refl
member-append q (p ∷ a) b =
    ap (λ t. str_eq p q || t) (member-append q a b) ∙ sym (or_assoc (str_eq p q) _ _)

pub chain :
    (a b : List String) (es es1 es2 : List Exclusion)
    → Extended a es es1
    → Extended b es1 es2
    → Extended (a ++ b) es es2
chain a b es es1 es2 x y = record {
  holds = λ q.
      y.holds q
      ∙ (ap (λ t. t || member q b) (x.holds q)
          ∙ (or_assoc (has q es) (member q a) (member q b)
              ∙ ap (λ t. has q es || t) (sym (member-append q a b))));
  distinct = λ d. y.distinct (x.distinct d);
}
