-- ===== src/Exit/Rules/Kernel.antt =====
-- What internal/vpn/exit.go relies on of the `ip rule` command: its documented effect on the rules
-- that the kernel keeps at each priority. A command that fails changes nothing.
use aw_remote_host.Common.{
  [], ◌==◌, if◌then◌else◌, ℕ, String, ◌≡◌, true, Option, none, some, List, ◌∷◌, ◌++◌,
}
use aw_remote_host.Runner.{Runner}
use aw_remote_host.Exit.Rules.{Text, add_args, del_args, is_no_such_rule}

-- The rules at each priority, oldest first.
abbrev pub Rules : Type 0
Rules = ℕ → List (List String)

-- One priority changed.
abbrev pub put : ℕ → List (List String) → Rules → Rules
put p rules all q = if p == q then rules else all q

abbrev pub after : (r : Runner) → List String → r.World → r.World
after r args w = (r.run "ip" args w).0

abbrev pub failure : (r : Runner) → List String → r.World → Option String
failure r args w = (r.run "ip" args w).1.failure

abbrev pub output : (r : Runner) → List String → r.World → String
output r args w = (r.run "ip" args w).1.output

pub record Kernel (r : Runner) (text : Text) : Type 0 where
  pub rules : r.World → Rules
  pub added :
      (w : r.World) (rule : List String) (p : ℕ)
      → failure r (add_args text rule p) w ≡ none
      → rules (after r (add_args text rule p) w) ≡ put p (rules w p ++ rule ∷ []) (rules w)
  -- A deletion takes one rule of the priority, and there is one.
  pub deleted :
      (w : r.World) (p : ℕ)
      → failure r (del_args text p) w ≡ none
      → (rule : List String) × (rest : List (List String)) × (rules w p ≡ rule ∷ rest)
        × (rules (after r (del_args text p) w) ≡ put p rest (rules w))
  pub no_such :
      (w : r.World) (p : ℕ) {e : String}
      → failure r (del_args text p) w ≡ some e
      → is_no_such_rule text (output r (del_args text p) w) ≡ true
      → rules w p ≡ []
  pub failed :
      (w : r.World) (args : List String) {e : String}
      → failure r args w ≡ some e
      → rules (after r args w) ≡ rules w
