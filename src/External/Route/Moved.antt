-- ===== src/External/Route/Moved.antt =====
-- What a confirmation of internal/vpn/externalroute.go has measured.
use aw_remote_host.Common.{
  ltb, if◌then◌else◌, Result, ok, err, ℕ, zero, suc, ◌+◌, String, ◌≡◌, refl, sym, ap, ◌∙◌, Bool,
  true, false, arith, str_eq, eq_iff,
}
use aw_remote_host.Exit.Confirm.{Egress}
use aw_remote_host.External.Route.{
  RouteMeets, with_host, external_confirm_once, confirm_from, confirm_external, ExternalReadings,
  ExternalConfirmSpec, ExternalConfirmation,
}

-- What a confirming attempt measured: the host's address held, and the container leaves from the
-- expected address, or from another one than before when that is known.
pub record HasMoved (spec : ExternalConfirmSpec) (now : ExternalReadings) : Type 0 where
  pub via : String
  pub host_held : now.host ≡ ok (record { ip = spec.host_before; via = via })
  pub has_internet : str_eq now.container.ip "" ≡ false
  pub as_expected : str_eq spec.expected "" ≡ false → now.container.ip ≡ spec.expected
  pub has_moved :
      str_eq spec.expected "" ≡ true
      → str_eq spec.container_before "" ≡ false
      → str_eq now.container.ip spec.container_before ≡ false

external_confirm_once-HasMoved :
    (spec : ExternalConfirmSpec) (now : ExternalReadings)
    → (external_confirm_once spec now).is_ok ≡ true
    → HasMoved spec now
unfolding external_confirm_once
external_confirm_once-HasMoved spec now h = by_host now.host refl h
  where
    by_host :
        (x : Result String Egress)
        → now.host ≡ x
        → (with_host spec now.container x).is_ok ≡ true
        → HasMoved spec now
    by_host (err e) f h = absurd (ground (arith, h))
    by_host (ok host) f h = record {
      via = host.via;
      host_held =
          f
          ∙ let same : host.ip ≡ spec.host_before =
              ground (arith, h, eq_iff host.ip spec.host_before) in
            ap (λ i. ok (record { ip = i; via = host.via })) same;
      has_internet = ground (arith, h);
      as_expected = λ e. ground (arith, h, e, eq_iff now.container.ip spec.expected);
      has_moved = λ e b. ground (arith, h, e, b);
    }

module _ (spec : ExternalConfirmSpec) (m : RouteMeets) where
  abbrev once : ℕ → ExternalConfirmation
  once n = external_confirm_once spec (m.readings n)

  one_of_three :
      (n : ℕ) (done stop : Bool) (rest : ExternalConfirmation)
      → (k : ℕ) × (rest ≡ once k)
      → (k : ℕ) × ((if done then once n else (if stop then once n else rest)) ≡ once k)
  one_of_three n true stop rest h = (n, refl)
  one_of_three n false true rest h = (n, refl)
  one_of_three n false false rest h = h

  confirm_from-once :
      (late cancelled : ℕ → Bool) (turns n : ℕ)
      → (k : ℕ) × (confirm_from spec m.readings late cancelled turns n ≡ once k)
  unfolding confirm_from
  confirm_from-once late cancelled zero n = (n, refl)
  confirm_from-once late cancelled (suc turns) n =
      one_of_three n _ (cancelled n) _ (confirm_from-once late cancelled turns (suc n))

  pub confirm_external-HasMoved :
      (confirm_external m spec).is_ok ≡ true → (n : ℕ) × HasMoved spec (m.readings n)
  unfolding confirm_external
  confirm_external-HasMoved h =
      let (n, e) =
        confirm_from-once (λ n. ltb (m.start + m.confirm_timeout) (m.clock n)) m.cancelled
          (m.passes (m.start + m.confirm_timeout)).0 0 in
      (
        n,
        external_confirm_once-HasMoved spec (m.readings n)
            (sym (ap (λ (x : ExternalConfirmation). x.is_ok) e) ∙ h),
      )
