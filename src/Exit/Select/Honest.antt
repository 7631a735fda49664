-- ===== src/Exit/Select/Honest.antt =====
-- What UseExit of internal/vpn/usexit.go leaves behind, however it ends.
use aw_remote_host.Common.{
  Result, ok, err, ℕ, String, ◌≡◌, refl, ◌⊎◌, inl, inr, Bool, true, false, ◌||◌, Option, none, some,
  arith, sym, ap, if◌then◌else◌, ◌&&◌, str_eq, ◌∙◌, ◌+◌,
}
use aw_remote_host.Common.Int.{pos_part}
use aw_remote_host.Runner.{Runner}
use aw_remote_host.Deadman.{Switches, DeadmanError, disarm, arm}
use aw_remote_host.Deadman.Guarded.{IsGuarded, IsQuiet, Disarmed, disarm-Disarmed, Armed, arm-Armed}
use aw_remote_host.Exit.Outcome.{
  Meets, no_result, SelectError, plan_failed, containers_not_measurable, not_armed, UseExitResult,
}
use aw_remote_host.Exit.Rules.{Text, apply_routes, RouteError}
use aw_remote_host.Exit.Confirm.{Egress, Reason, ConfirmResult}
use aw_remote_host.Exit.Confirm.Ended.{confirm_with_retries-attempt}
use aw_remote_host.Exit.Confirm.Proven.{IsProven, confirm_container_scoped-IsProven}
use aw_remote_host.Exit.Select.{
  set_exit_node, revert_counting, is_err, undo, stood_down, concluded, confirm_spec, final_check,
  with_check, selected, routed, armed, arm_spec, measured_before, unless_refused, use_planned,
  stood, Host,
}
use aw_remote_host.Exit.Prepare.{UseExitPlan, UseExitSpec, PrepareError, Refusal}

-- A live switch that is recorded, so that it will revert the selection and can be stood down.
abbrev pub IsLive : Switches → Type 0
IsLive s = (p : ℕ) × (s.recorded ≡ some p) × (s.alive p ≡ true)

module _ (r : Runner) (text : Text) (exists : r.World → Bool) (spec : UseExitSpec) (m : Meets) where
  open r use {World}

  -- A world that a successful revert left.
  abbrev pub IsReverted : World → Type 0
  IsReverted w' =
      (w : World) × ((revert_counting r text exists w).2 ≡ none)
      × (w' ≡ (revert_counting r text exists w).0)

  -- An attempt of the confirmation proved the selection.
  abbrev pub WasProven : Type 0
  WasProven =
      (before : String) × (n : ℕ) × IsProven (confirm_spec r text exists spec m before)
        (m.readings n)

  pub record IsHonest (s : Host r text exists)
      (out : Host r text exists × UseExitResult × Option SelectError) : Type 0 where
    -- What was changed and neither confirmed nor reverted is reported, and a live switch reverts it.
    pub kept :
        out.1.confirmed ≡ false
        → out.1.reverted ≡ false
        → (out.0.world ≡ s.world) ⊎ (IsLive out.0.switches × (out.1.deadman_still_armed ≡ true))
    pub quiet :
        (out.1.confirmed || out.1.reverted) ≡ true
        → out.1.deadman_still_armed ≡ false
        → IsQuiet out.0.switches
    pub undone : out.1.reverted ≡ true → IsReverted out.0.world
    pub unsaved : out.1.confirmed ≡ false → out.0.stored ≡ s.stored
    pub proven : out.1.confirmed ≡ true → WasProven
    pub succeeded : out.2 ≡ none → (out.1.confirmed ≡ true) × (out.1.deadman_still_armed ≡ false)
    pub guarded : IsGuarded out.0.switches

  -- Nothing happened yet.
  idle :
      (s s' : Host r text exists) (res : UseExitResult) (e : SelectError)
      → s'.world ≡ s.world
      → s'.stored ≡ s.stored
      → res.confirmed ≡ false
      → res.reverted ≡ false
      → IsGuarded s'.switches
      → IsHonest s (s', res, some e)
  idle s s' res e w v c d g = record {
    kept = λ a b. inl w;
    quiet = λ h. absurd (ground (arith, h, c, d));
    undone = λ h. absurd (ground (arith, h, d));
    unsaved = λ h. v;
    proven = λ h. absurd (ground (arith, h, c));
    succeeded = λ h. absurd (ground (arith, h));
    guarded = g;
  }

  disarmed-IsGuarded : (p : Switches × Result DeadmanError Bool) → Disarmed p → IsGuarded p.0
  disarmed-IsGuarded (s, ok killed) q = record {
    only = λ p a. absurd (let d = q p in ground (arith, a, d));
  }
  disarmed-IsGuarded (s, err e) g = g

  disarmed-IsQuiet :
      (p : Switches × Result DeadmanError Bool)
      → Disarmed p
      → is_err r text exists p.1 ≡ false
      → IsQuiet p.0
  disarmed-IsQuiet (s, ok killed) q h = q
  disarmed-IsQuiet (s, err e) g h = absurd (ground (arith, h))

  undo-IsHonest :
      (s : Host r text exists) (res : UseExitResult) (e e' : SelectError) (switches : Switches)
      (w : World) (x : World × ℕ × Option SelectError)
      → revert_counting r text exists w ≡ x
      → res.confirmed ≡ false
      → res.reverted ≡ false
      → IsLive switches
      → IsGuarded switches
      → IsHonest s (undo r text exists m res e e' switches s.stored x)
  undo-IsHonest s res e e' switches w (w1, n, none) f c d live g =
      let p = disarm m.disarm_calls switches in
      let d' = disarm-Disarmed m.disarm_calls switches g in
      record {
        kept = λ a b. absurd (ground (arith, b));
        quiet = λ h n. disarmed-IsQuiet p d' n;
        undone = λ h. (w, ap (λ o. o.2) f, ap (λ o. o.0) (sym f));
        unsaved = λ h. refl;
        proven = λ h. absurd (ground (arith, h, c));
        succeeded = λ h. absurd (ground (arith, h));
        guarded = disarmed-IsGuarded p d';
      }
  undo-IsHonest s res e e' switches w (w1, n, some y) f c d live g = record {
    kept = λ a b. inr (live, refl);
    quiet = λ h. absurd (ground (arith, h, c, d));
    undone = λ h. absurd (ground (arith, h, d));
    unsaved = λ h. refl;
    proven = λ h. absurd (ground (arith, h, c));
    succeeded = λ h. absurd (ground (arith, h));
    guarded = g;
  }

  stood_down-IsHonest :
      (plan : UseExitPlan) (s : Host r text exists) (res : UseExitResult) (w : World)
      (p : Switches × Result DeadmanError Bool)
      → res.confirmed ≡ true
      → res.reverted ≡ false
      → res.deadman_still_armed ≡ false
      → WasProven
      → Disarmed p
      → IsHonest s (stood_down r text exists spec plan m res w s.stored p)
  stood_down-IsHonest plan s res w (switches, err e) c d a pr dis = record {
    kept = λ h. absurd (ground (arith, h, c));
    quiet = λ h n. absurd (ground (arith, n));
    undone = λ h. absurd (ground (arith, h, d));
    unsaved = λ h. absurd (ground (arith, h, c));
    proven = λ h. pr;
    succeeded = λ h. absurd (ground (arith, h));
    guarded = dis;
  }
  stood_down-IsHonest plan s res w (switches, ok stood) c d a pr q = record {
    kept = λ h. absurd (ground (arith, h, c));
    quiet = λ h n. q;
    undone = λ h. absurd (ground (arith, h, d));
    unsaved = λ h. absurd (ground (arith, h, c));
    proven = λ h. pr;
    succeeded = λ h. (c, a);
    guarded = record { only = λ p a. absurd (let d = q p in ground (arith, a, d)) };
  }

  concluded-IsHonest :
      (plan : UseExitPlan) (s : Host r text exists) (res : UseExitResult) (switches : Switches)
      (w : World) (why : Option Reason) (good : Bool)
      → res.confirmed ≡ good
      → res.reverted ≡ false
      → res.deadman_still_armed ≡ false
      → (good ≡ true → WasProven)
      → IsLive switches
      → IsGuarded switches
      → IsHonest s (
          concluded r text exists spec plan m res
            (record { world = w; switches = switches; stored = s.stored })
            why
            good)
  concluded-IsHonest plan s res switches w why true c d a pr live g =
      stood_down-IsHonest plan s res w (disarm m.disarm_calls switches) c d a (pr refl)
        (disarm-Disarmed m.disarm_calls switches g)
  concluded-IsHonest plan s res switches w why false c d a pr live g =
      undo-IsHonest s res _ _ switches w (revert_counting r text exists w) refl c d live g

  -- A result from before the confirmation.
  abbrev IsFresh : UseExitResult → Type 0
  IsFresh res = (res.confirmed ≡ false) × (res.reverted ≡ false) × (res.deadman_still_armed ≡ false)

  final_check-WasProven :
      (before : String) → (final_check r text exists spec m before).is_ok ≡ true → WasProven
  final_check-WasProven before h =
      let c = confirm_spec r text exists spec m before in
      let (n, e) =
        confirm_with_retries-attempt c m.readings m.start m.clock (pos_part spec.confirm_timeout)
          (m.passes (m.start + pos_part spec.confirm_timeout)) in
      (
        before,
        n,
        confirm_container_scoped-IsProven c (m.readings n)
            (sym (ap (λ (x : ConfirmResult). x.is_ok) e) ∙ h),
      )

  selected-IsHonest :
      (plan : UseExitPlan) (s : Host r text exists) (res : UseExitResult) (switches : Switches)
      (x : World × Option SelectError)
      → IsFresh res
      → IsLive switches
      → IsGuarded switches
      → IsHonest s (selected r text exists spec plan m res switches s.stored x)
  selected-IsHonest plan s res switches (w, some e) (c, d, a) live g =
      undo-IsHonest s res e e switches w (revert_counting r text exists w) refl c d live g
  selected-IsHonest plan s res switches (w, none) (c, d, a) live g =
      let v = final_check r text exists spec m res.egress_before in
      concluded-IsHonest plan s (with_check r text exists res v) switches w v.reason v.is_ok refl d
        a (final_check-WasProven res.egress_before) live g

  routed-IsHonest :
      (plan : UseExitPlan) (s : Host r text exists) (res : UseExitResult) (switches : Switches)
      (x : World × Result RouteError (Unit {0}))
      → IsFresh res
      → IsLive switches
      → IsGuarded switches
      → IsHonest s (routed r text exists spec plan m res switches s.stored x)
  routed-IsHonest plan s res switches (w, err e) (c, d, a) live g =
      undo-IsHonest s res _ _ switches w (revert_counting r text exists w) refl c d live g
  routed-IsHonest plan s res switches (w, ok done) f live g =
      selected-IsHonest plan s res switches (set_exit_node r text exists plan.gate_ip w) f live g

  armed-IsHonest :
      (plan : UseExitPlan) (s : Host r text exists) (res : UseExitResult)
      (x : Switches × Result DeadmanError ℕ)
      → IsFresh res
      → Armed x
      → IsHonest s (armed r text exists spec plan m res s x)
  armed-IsHonest plan s res (switches, err e) (c, d, a) g =
      idle s (record s { switches = switches }) res (not_armed e) refl refl c d g
  armed-IsHonest plan s res (switches, ok pid) f (rec, alive, g) =
      routed-IsHonest plan s res switches (apply_routes r text plan.routes s.world) f
        (pid, rec, alive) g

  measured_before-IsHonest :
      (plan : UseExitPlan) (s : Host r text exists) (res : UseExitResult) (x : Result String Egress)
      → IsFresh res
      → m.arm_calls.clean_up ≡ none
      → IsGuarded s.switches
      → IsHonest s (measured_before r text exists spec plan m res s x)
  measured_before-IsHonest plan s res (err e) (c, d, a) k g = idle s s res _ refl refl c d g
  measured_before-IsHonest plan s res (ok egress) (c, d, a) k g =
      by_baseline (str_eq m.container_before.ip "" && str_eq spec.expect_egress "")
    where
      res' : UseExitResult
      res' = record res { egress_before = egress.ip; container_before = some m.container_before }

      by_baseline :
          (b : Bool)
          → IsHonest s (
              if b
              then (s, res', some (containers_not_measurable m.container_before.problem))
              else armed r text exists spec plan m res' s
                  (arm text.trim (arm_spec r text exists spec m) m.arm_calls s.switches))
      by_baseline true = idle s s res' _ refl refl c d g
      by_baseline false =
          armed-IsHonest plan s res' _ (c, d, a)
            (arm-Armed text.trim (arm_spec r text exists spec m) m.arm_calls s.switches k g)

  pub use_planned-IsHonest :
      (s : Host r text exists) (planned : Result PrepareError UseExitPlan)
      → m.arm_calls.clean_up ≡ none
      → IsGuarded s.switches
      → IsHonest s (use_planned r text exists spec m s planned)
  unfolding use_planned
  use_planned-IsHonest s (err e) k g = idle s s no_result (plan_failed e) refl refl refl refl g
  use_planned-IsHonest s (ok plan) k g = by_refusal plan.refusal
    where
      by_refusal : (x : Option Refusal) → IsHonest s (unless_refused r text exists spec plan m s x)
      by_refusal (some x) = idle s s _ _ refl refl refl refl g
      by_refusal none = measured_before-IsHonest plan s _ m.host_before (refl, refl, refl) k g
