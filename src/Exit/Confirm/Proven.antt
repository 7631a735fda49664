-- ===== src/Exit/Confirm/Proven.antt =====
-- What an OK of confirmContainerScoped of internal/vpn/exit.go stands for.
use aw_remote_host.Common.{
  ok, String, ◌≡◌, true, false, none, arith, str_eq, if◌then◌else◌, Result, err, refl, ap, ◌∙◌,
  subst, Bool, not, Option, some, eq_iff,
}
use aw_remote_host.Exit.Confirm.{
  ConfirmSpec, Readings, compared, container_egress_verdict, ContainerEgress, is_none, reached,
  measured, confirm_container_scoped, Egress, Reason, host_never_measured, host_has_moved,
  ConfirmResult, initial,
}

-- The host still has the address that it had, the control plane is reachable, and the containers
-- leave from another address: the expected one, or else one that is not theirs of before.
pub record IsProven (spec : ConfirmSpec) (now : Readings) : Type 0 where
  pub via : String
  pub host_held : now.host ≡ ok (record { ip = spec.host_before; via = via })
  pub was_known : str_eq spec.host_before "" ≡ false
  pub reachable : now.unreachable ≡ none
  pub has_internet : str_eq now.container.ip "" ≡ false
  pub not_the_host : str_eq now.container.ip spec.host_before ≡ false
  pub as_expected : str_eq spec.expected "" ≡ false → now.container.ip ≡ spec.expected
  pub has_moved :
      str_eq spec.expected "" ≡ true
      → (str_eq spec.container.ip "" ≡ false) × (str_eq now.container.ip spec.container.ip ≡ false)

record IsElsewhere (before now : ContainerEgress) (expected host_ip : String) : Type 0 where
  pub has_internet : str_eq now.ip "" ≡ false
  pub not_the_host : str_eq now.ip host_ip ≡ false
  pub as_expected : str_eq expected "" ≡ false → now.ip ≡ expected
  pub has_moved :
      str_eq expected "" ≡ true → (str_eq before.ip "" ≡ false) × (str_eq now.ip before.ip ≡ false)

container_egress_verdict-IsElsewhere :
    (before now : ContainerEgress) (expected host_ip : String)
    → container_egress_verdict before now expected host_ip ≡ none
    → IsElsewhere before now expected host_ip
unfolding container_egress_verdict compared
container_egress_verdict-IsElsewhere before now expected host_ip h = record {
  has_internet = ground (arith, h);
  not_the_host = ground (arith, h);
  as_expected = λ e. ground (arith, h, e, eq_iff now.ip expected);
  has_moved = λ e. (ground (arith, h, e), ground (arith, h, e));
}

is_none→none : (v : Option Reason) → is_none v ≡ true → v ≡ none
is_none→none none h = refl
is_none→none (some x) h = absurd (ground (arith, h))

reached-IsProven :
    (spec : ConfirmSpec) (now : Readings) (host : Egress) (res : ConfirmResult) (u : Option String)
    → now.host ≡ ok host
    → str_eq spec.host_before "" ≡ false
    → host.ip ≡ spec.host_before
    → now.unreachable ≡ u
    → res.is_ok ≡ false
    → (reached spec now host res u).is_ok ≡ true
    → IsProven spec now
reached-IsProven spec now host res (some e) f k same u n h = absurd (ground (arith, h, n))
reached-IsProven spec now host res none f k same u n h =
    let v =
      container_egress_verdict-IsElsewhere spec.container now.container spec.expected host.ip
        (is_none→none _ h) in
    record {
      via = host.via;
      host_held = f ∙ ap (λ i. ok (record { ip = i; via = host.via })) same;
      was_known = k;
      reachable = u;
      has_internet = v.has_internet;
      not_the_host = subst (λ i. str_eq now.container.ip i ≡ false) same v.not_the_host;
      as_expected = v.as_expected;
      has_moved = v.has_moved;
    }

host_measured-IsProven :
    (spec : ConfirmSpec) (now : Readings) (host : Egress) (res : ConfirmResult) (b c : Bool)
    → now.host ≡ ok host
    → str_eq spec.host_before "" ≡ b
    → str_eq host.ip spec.host_before ≡ c
    → res.is_ok ≡ false
    → (if b
        then record res { reason = some host_never_measured }
        else (if not c
            then record res {
              host_moved = true;
              reason = some (host_has_moved spec.host_before host);
            }
            else reached spec now host (record res { host_held = true }) now.unreachable)).is_ok
      ≡ true
    → IsProven spec now
host_measured-IsProven spec now host res true c f k same n h = absurd (ground (arith, h, n))
host_measured-IsProven spec now host res false false f k same n h = absurd (ground (arith, h, n))
host_measured-IsProven spec now host res false true f k same n h =
    reached-IsProven spec now host (record res { host_held = true }) now.unreachable f k
      ((eq_iff host.ip spec.host_before).0 same) refl n h

-- An attempt that confirms an exit selection has measured that the host's address did not move, that
-- the control plane is reachable, and that the containers leave from another address than the host:
-- the expected one, or else another than before.
pub confirm_container_scoped-IsProven :
    (spec : ConfirmSpec) (now : Readings)
    → (confirm_container_scoped spec now).is_ok ≡ true
    → IsProven spec now
unfolding confirm_container_scoped
confirm_container_scoped-IsProven spec now h = by_host now.host refl h
  where
    by_host :
        (r : Result String Egress)
        → now.host ≡ r
        → (measured spec now r).is_ok ≡ true
        → IsProven spec now
    by_host (err e) f h = absurd (ground (arith, h))
    by_host (ok host) f h =
        host_measured-IsProven spec now host
          (record (initial spec now) { host_after = host.ip; host_after_via = host.via }) _ _ f refl
          refl refl h
