-- ===== src/Firewall/Iptables/Kernel.antt =====
-- What internal/firewall/iptables.go relies on of the iptables command: its documented effect on
-- the rules of the chains of the filter table. A command that fails changes nothing.
use aw_remote_host.Common.{
  String, ◌≡◌, Option, none, some, List, [], ◌∷◌, ◌++◌, str_eq, if◌then◌else◌,
}
use aw_remote_host.Runner.{Runner}

abbrev pub after : (r : Runner) → List String → r.World → r.World
after r args w = (r.run "iptables" args w).0

abbrev pub failure : (r : Runner) → List String → r.World → Option String
failure r args w = (r.run "iptables" args w).1.failure

abbrev pub Chains : Type 0
Chains = String → Option (List (List String))

-- One chain changed.
abbrev pub put : String → Option (List (List String)) → Chains → Chains
put c rules chains d = if str_eq c d then rules else chains d

abbrev pub add_last : List String → Option (List (List String)) → Option (List (List String))
add_last spec none = none
add_last spec (some rules) = some (rules ++ spec ∷ [])

abbrev pub add_first : List String → Option (List (List String)) → Option (List (List String))
add_first spec none = none
add_first spec (some rules) = some (spec ∷ rules)

abbrev pub jump : String → List String
jump chain = "-j" ∷ chain ∷ []

pub record Kernel (r : Runner) : Type 0 where
  -- The rules of each chain, `none` for a chain that is not there.
  pub chains : r.World → Chains
  pub created :
      (w : r.World) (c : String)
      → failure r ("-N" ∷ c ∷ []) w ≡ none
      → chains (after r ("-N" ∷ c ∷ []) w) ≡ put c (some []) (chains w)
  pub flushed :
      (w : r.World) (c : String)
      → failure r ("-F" ∷ c ∷ []) w ≡ none
      → chains (after r ("-F" ∷ c ∷ []) w) ≡ put c (some []) (chains w)
  pub appended :
      (w : r.World) (c : String) (spec : List String)
      → failure r ("-A" ∷ c ∷ spec) w ≡ none
      → chains (after r ("-A" ∷ c ∷ spec) w) ≡ put c (add_last spec (chains w c)) (chains w)
  pub inserted :
      (w : r.World) (hook c : String)
      → failure r ("-I" ∷ hook ∷ jump c) w ≡ none
      → chains (after r ("-I" ∷ hook ∷ jump c) w)
        ≡ put hook (add_first (jump c) (chains w hook)) (chains w)
  pub inserted_at_one :
      (w : r.World) (hook c : String)
      → failure r ("-I" ∷ hook ∷ "1" ∷ jump c) w ≡ none
      → chains (after r ("-I" ∷ hook ∷ "1" ∷ jump c) w)
        ≡ put hook (add_first (jump c) (chains w hook)) (chains w)
  pub checked : (w : r.World) (args : List String) → chains (after r ("-C" ∷ args) w) ≡ chains w
  pub listed : (w : r.World) (args : List String) → chains (after r ("-nL" ∷ args) w) ≡ chains w
  pub failed :
      (w : r.World) (args : List String) {e : String}
      → failure r args w ≡ some e
      → chains (after r args w) ≡ chains w
