-- ===== src/Deadman/Guarded.antt =====
-- Which dead-man's switches of internal/vpn/deadman.go can be live.
use aw_remote_host.Common.{
  Result, ok, err, ℕ, String, ◌≡◌, Bool, true, false, Option, none, some, arith, ◌==◌,
  if◌then◌else◌, Bool-cases, refl, inl, inr, not, ◌&&◌, str_eq,
}
use aw_remote_host.Common.Int.{ltb_ℤ, pos}
use aw_remote_host.Deadman.{
  Switches, forget, kill_and_forget, DeadmanError, DisarmCalls, mark, disarm_recorded, disarm,
  system_error, kill_group, confirm, launch, launch_after, arm, never_visible, ArmCalls, ArmSpec,
}

-- Every live switch is the recorded one, so it can be stood down.
pub record IsGuarded (s : Switches) : Type 0 where
  pub only : (p : ℕ) → s.alive p ≡ true → s.recorded ≡ some p

-- No switch is live.
abbrev pub IsQuiet : Switches → Type 0
IsQuiet s = (p : ℕ) → s.alive p ≡ false

-- What Disarm promises: a guarded state, and no live switch when it succeeds.
abbrev pub Disarmed : Switches × Result DeadmanError Bool → Type 0
Disarmed (s, ok killed) = IsQuiet s
Disarmed (s, err e) = IsGuarded s

forget-Disarmed :
    (r : Option String) (killed : Bool) (s : Switches) → IsQuiet s → Disarmed (forget r killed s)
forget-Disarmed none killed s q = q
forget-Disarmed (some e) killed s q = record {
  only = λ p a. absurd (let d = q p in ground (arith, a, d));
}

kill_and_forget-Disarmed :
    (c : DisarmCalls) (r : Option String) (p : ℕ) (s : Switches)
    → s.recorded ≡ some p
    → IsGuarded s
    → Disarmed (kill_and_forget c r p s)
unfolding kill_group
kill_and_forget-Disarmed c (some e) p s h g = g
kill_and_forget-Disarmed c none p s h g =
    forget-Disarmed c.remove_file true (kill_group none p s) killed_quiet
  where
    killed_quiet : (k : ℕ) → mark p false s.alive k ≡ false
    killed_quiet k = elim (Bool-cases (k == p)) [
      | inl same ↦ rw same refl
      | inr other ↦ rw other (elim (Bool-cases (s.alive k)) [
        | inl a ↦ let r = g.only k a in absurd (ground (arith, r, h, other))
        | inr d ↦ d
      ])
    ]

disarm_recorded-Disarmed :
    (c : DisarmCalls) (r : Option ℕ) (s : Switches)
    → s.recorded ≡ r
    → IsGuarded s
    → Disarmed (disarm_recorded c r s)
unfolding disarm_recorded
disarm_recorded-Disarmed c none s h g = nobody
  where
    nobody : IsQuiet s
    nobody k = elim (Bool-cases (s.alive k)) [
      | inl a ↦ let r = g.only k a in absurd (ground (arith, r, h))
      | inr d ↦ d
    ]
disarm_recorded-Disarmed c (some p) s h g = by_life (s.alive p) refl
  where
    by_life :
        (b : Bool)
        → s.alive p ≡ b
        → Disarmed (if b then kill_and_forget c c.kill p s else forget c.remove_file false s)
    by_life true e = kill_and_forget-Disarmed c c.kill p s h g
    by_life false e = forget-Disarmed c.remove_file false s dead
      where
        dead : IsQuiet s
        dead k = elim (Bool-cases (s.alive k)) [
          | inl a ↦ let r = g.only k a in absurd (ground (arith, r, h, a, e))
          | inr d ↦ d
        ]

pub disarm-Disarmed : (c : DisarmCalls) (s : Switches) → IsGuarded s → Disarmed (disarm c s)
unfolding disarm
disarm-Disarmed c s g = by_load c.load
  where
    by_load :
        (l : Option String)
        → Disarmed
            (elim l [ some e ↦ (s, err (system_error e)) | none ↦ disarm_recorded c s.recorded s ])
    by_load (some e) = g
    by_load none = disarm_recorded-Disarmed c s.recorded s refl g

-- What Arm promises.
abbrev pub Armed : Switches × Result DeadmanError ℕ → Type 0
Armed (s, ok p) = (s.recorded ≡ some p) × (s.alive p ≡ true) × IsGuarded s
Armed (s, err e) = IsGuarded s

-- Behind a quiet state, a switch that was just started.
started-IsGuarded :
    (p : ℕ) (s : Switches)
    → IsQuiet s
    → IsGuarded (record s { alive = mark p true s.alive; recorded = some p })
started-IsGuarded p s q = record { only = λ k a. let d = q k in ground (arith, a, d) }

-- A clean-up kill leaves no live switch.
cleaned-IsGuarded :
    (p : ℕ) (s : Switches)
    → IsQuiet s
    → IsGuarded (kill_group none p (record s { alive = mark p true s.alive }))
unfolding kill_group
cleaned-IsGuarded p s q = record { only = λ k a. let d = q k in absurd (ground (arith, a, d)) }

confirm-Armed :
    (c : ArmCalls) (s : Switches)
    → c.clean_up ≡ none
    → IsQuiet s
    → Armed (confirm c (record s { alive = mark c.pid true s.alive }))
unfolding confirm
confirm-Armed c s k q = by_sight c.visible
  where
    started : Switches
    started = record s { alive = mark c.pid true s.alive }

    failed : IsGuarded (kill_group c.clean_up c.pid started)
    failed = rw k (cleaned-IsGuarded c.pid s q)

    by_save :
        (r : Option String)
        → Armed (elim r [
          | some e ↦ (kill_group c.clean_up c.pid started, err (system_error e))
          | none ↦ (record started { recorded = some c.pid }, ok c.pid)
        ])
    by_save (some e) = failed
    by_save none = (refl, ground arith, started-IsGuarded c.pid s q)

    by_sight :
        (b : Bool)
        → Armed (
            if not b
            then (kill_group c.clean_up c.pid started, err (never_visible c.pid))
            else elim c.save [
              | some e ↦ (kill_group c.clean_up c.pid started, err (system_error e))
              | none ↦ (record started { recorded = some c.pid }, ok c.pid)
            ])
    by_sight true = by_save c.save
    by_sight false = failed

quiet-IsGuarded : (s : Switches) → IsQuiet s → IsGuarded s
quiet-IsGuarded s q = record { only = λ p a. absurd (let d = q p in ground (arith, a, d)) }

launch-Armed : (c : ArmCalls) (s : Switches) → c.clean_up ≡ none → IsQuiet s → Armed (launch c s)
unfolding launch
launch-Armed c s k q = by_log c.open_log
  where
    by_start :
        (r : Option String)
        → Armed (elim r [
          | some e ↦ (s, err (system_error e))
          | none ↦ confirm c (record s { alive = mark c.pid true s.alive })
        ])
    by_start (some e) = quiet-IsGuarded s q
    by_start none = confirm-Armed c s k q

    by_log :
        (r : Option String)
        → Armed (elim r [
          | some e ↦ (s, err (system_error e))
          | none ↦ elim c.start [
            | some e ↦ (s, err (system_error e))
            | none ↦ confirm c (record s { alive = mark c.pid true s.alive })
          ]
        ])
    by_log (some e) = quiet-IsGuarded s q
    by_log none = by_start c.start

launch_after-Armed :
    (c : ArmCalls) (p : Switches × Result DeadmanError Bool)
    → c.clean_up ≡ none
    → Disarmed p
    → Armed (launch_after c p)
launch_after-Armed c (s, err e) k d = d
launch_after-Armed c (s, ok killed) k d = launch-Armed c s k d

pub arm-Armed :
    (trim : String → String) (spec : ArmSpec) (c : ArmCalls) (s : Switches)
    → c.clean_up ≡ none
    → IsGuarded s
    → Armed (arm trim spec c s)
unfolding arm
arm-Armed trim spec c s k g = elim (Bool-cases (ltb_ℤ (pos 0) spec.after)) [
  | inr e ↦ rw e g
  | inl e ↦
      rw e
        (elim (Bool-cases
          (str_eq spec.tailscale_path "" && str_eq (trim spec.exclusion_revert) "")) [
            | inl n ↦ rw n g
            | inr n ↦ rw n (launch_after-Armed c _ k (disarm-Disarmed c.disarm_calls s g))
          ])
]

-- Where every live switch is the recorded one, a Disarm that succeeds leaves none live.
pub disarm-IsQuiet :
    (c : DisarmCalls) (s : Switches) (killed : Bool) (p : ℕ)
    → IsGuarded s
    → (disarm c s).1 ≡ ok killed
    → (disarm c s).0.alive p ≡ false
disarm-IsQuiet c s killed p g e = from_outcome (disarm c s) (disarm-Disarmed c s g) e
  where
    from_outcome :
        (r : Switches × Result DeadmanError Bool)
        → Disarmed r
        → r.1 ≡ ok killed
        → r.0.alive p ≡ false
    from_outcome (t, ok b) d e = d p
    from_outcome (t, err x) d e = absurd (ground (arith, e))
