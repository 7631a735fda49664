-- ===== src/Exit/Confirm/Ended.antt =====
-- When confirmWithRetries of internal/vpn/usexit.go ends.
use aw_remote_host.Common.{
  ltb, if◌then◌else◌, lt→ltb, ltb→lt, Bool-cases, inl, inr, ◌<◌, ℕ, zero, suc, ◌+◌, ◌*◌, ◌/◌, ◌≤◌,
  ◌≡◌, refl, sym, subst, Bool, true, false, ◌||◌, arith, ltb→ge,
}
use aw_remote_host.Exit.Confirm.{
  Readings, confirm_container_scoped, confirm_poll_interval, retry, confirm_with_retries,
  ConfirmSpec, ConfirmResult,
}

module _ (spec : ConfirmSpec) (readings : ℕ → Readings) where
  abbrev pub attempt : ℕ → ConfirmResult
  attempt n = confirm_container_scoped spec (readings n)

  -- Behind an attempt the loop has one of its three reasons to end.
  abbrev pub stops : (ℕ → Bool) → ℕ → Bool
  stops late n = (attempt n).is_ok || late n || (attempt n).host_moved

  -- The loop that began with attempt `from` ended behind attempt `n`, for one of its three reasons and
  -- with what that measured, and had none of them before.
  pub record EndsAt (late : ℕ → Bool) (from n : ℕ) (res : ConfirmResult) : Type 0 where
    pub last : res ≡ attempt n
    pub ends : stops late n ≡ true
    pub first : (k : ℕ) → from ≤ k → k < n → stops late k ≡ false

  abbrev pub Ended : (ℕ → Bool) → ℕ → ℕ → ConfirmResult → Type 0
  Ended late from most res = (n : ℕ) × (n ≤ most) × EndsAt late from n res

  third : (a b c : Bool) → b ≡ true → (a || b || c) ≡ true
  third true b c h = refl
  third false b c h = rw h refl

  first_two : (a b c : Bool) → (a || b) ≡ true → (a || b || c) ≡ true
  first_two a b c h = rw h refl

  neither : (a b c d : Bool) → (a || b) ≡ d → d ≡ false → c ≡ false → (a || b || c) ≡ false
  neither true b c d e f g = absurd (ground (arith, e, f))
  neither false b c d e f g = ground (arith, e, f, g)

  none_between : (late : ℕ → Bool) (n k : ℕ) → n ≤ k → k < n → stops late k ≡ false
  none_between late n k h l = absurd (omega (arith, h, l))

  earlier :
      (late : ℕ → Bool) (n m : ℕ)
      → stops late n ≡ false
      → ((k : ℕ) → suc n ≤ k → k < m → stops late k ≡ false)
      → (k : ℕ) → n ≤ k
      → k < m
      → stops late k ≡ false
  earlier late n m here rest k h l = elim (Bool-cases (ltb n k)) [
    | inl e ↦ let lt = ltb→lt n k e in rest k (omega (arith, lt)) l
    | inr e ↦
        let same : n ≡ k = omega (arith, h, ltb→ge n k e) in
        subst (λ j. stops late j ≡ false) same here
  ]

  by_reason :
      (late : ℕ → Bool) (n most : ℕ) (rest : ConfirmResult) (done moved : Bool)
      → n ≤ most
      → ((attempt n).is_ok || late n) ≡ done
      → (attempt n).host_moved ≡ moved
      → Ended late (suc n) most rest
      → Ended late n most (if done then attempt n else (if moved then attempt n else rest))
  by_reason late n most rest true moved h e f r = (
    n,
    h,
    record {
      last = refl;
      ends = first_two (attempt n).is_ok (late n) (attempt n).host_moved e;
      first = none_between late n;
    },
  )
  by_reason late n most rest false true h e f r =
      (n, h, record { last = refl; ends = rw e f; first = none_between late n })
  by_reason late n most rest false false h e f (m, le, r) = (
    m,
    le,
    record {
      last = r.last;
      ends = r.ends;
      first =
          earlier late n m
            (neither (attempt n).is_ok (late n) (attempt n).host_moved false e refl f) r.first;
    },
  )

  retry-Ended :
      (late : ℕ → Bool) (turns n : ℕ)
      → late (n + turns) ≡ true
      → Ended late n (n + turns) (retry spec readings late turns n)
  unfolding retry
  retry-Ended late zero n h = (
    n,
    omega arith,
    record {
      last = refl;
      ends =
          third (attempt n).is_ok (late n) (attempt n).host_moved
            (subst (λ k. late k ≡ true) (omega arith) h);
      first = none_between late n;
    },
  )
  retry-Ended late (suc turns) n h =
      let e : suc n + turns ≡ n + suc turns = omega arith in
      by_reason late n (n + suc turns) _ _ _ (omega arith) refl refl (
        subst (λ m. Ended late (suc n) m (retry spec readings late turns (suc n))) e
          (retry-Ended late turns (suc n) (subst (λ k. late k ≡ true) (sym e) h)))

  one_of_three :
      (n : ℕ) (done moved : Bool) (rest : ConfirmResult)
      → (k : ℕ) × (rest ≡ attempt k)
      → (k : ℕ) × ((if done then attempt n else (if moved then attempt n else rest)) ≡ attempt k)
  one_of_three n true moved rest h = (n, refl)
  one_of_three n false true rest h = (n, refl)
  one_of_three n false false rest h = h

  retry-attempt :
      (late : ℕ → Bool) (turns n : ℕ) → (k : ℕ) × (retry spec readings late turns n ≡ attempt k)
  unfolding retry
  retry-attempt late zero n = (n, refl)
  retry-attempt late (suc turns) n =
      one_of_three n _ (attempt n).host_moved _ (retry-attempt late turns (suc n))

  -- The result is always that of one attempt.
  pub confirm_with_retries-attempt :
      (start : ℕ) (clock : ℕ → ℕ) (timeout : ℕ) (passes : (n : ℕ) × (start + timeout < clock n))
      → (k : ℕ) × (confirm_with_retries spec readings start clock timeout passes ≡ attempt k)
  unfolding confirm_with_retries
  confirm_with_retries-attempt start clock timeout passes =
      retry-attempt (λ n. ltb (start + timeout) (clock n)) passes.0 0

  after_polls :
      (start : ℕ) (clock : ℕ → ℕ)
      → start ≤ clock 0
      → ((n : ℕ) → clock n + confirm_poll_interval ≤ clock (suc n))
      → (n : ℕ) → start + n * confirm_poll_interval ≤ clock n
  after_polls start clock h pace zero = omega (arith, h)
  after_polls start clock h pace (suc n) =
      let ih = after_polls start clock h pace n in let p = pace n in omega (arith, ih, p)

  capped :
      (late : ℕ → Bool) (n most : ℕ)
      → late most ≡ true
      → ((k : ℕ) → 0 ≤ k → k < n → stops late k ≡ false)
      → n ≤ most
  capped late n most past first = elim (Bool-cases (ltb most n)) [
    | inl e ↦
        let t = third (attempt most).is_ok (late most) (attempt most).host_moved past in
        absurd (ground (arith, t, first most (omega arith) (ltb→lt most n e)))
    | inr e ↦ ltb→ge most n e
  ]

  -- confirmWithRetries ends behind the first attempt that confirmed the selection, ended past the
  -- deadline, or saw the host's address move, and returns what that attempt measured; at the latest it
  -- is the attempt that the poll interval puts past the timeout. It is assumed that time does not go
  -- back, that it gets past the deadline, and that each retry waits the poll interval.
  pub confirm_with_retries-Ended :
      (start : ℕ) (clock : ℕ → ℕ) (timeout : ℕ) (passes : (n : ℕ) × (start + timeout < clock n))
      → start ≤ clock 0
      → ((n : ℕ) → clock n + confirm_poll_interval ≤ clock (suc n))
      → Ended
          (λ n. ltb (start + timeout) (clock n))
          0
          (suc (timeout / confirm_poll_interval))
          (confirm_with_retries spec readings start clock timeout passes)
  unfolding confirm_with_retries
  confirm_with_retries-Ended start clock timeout passes h pace =
      let most = suc (timeout / confirm_poll_interval) in
      let past = after_polls start clock h pace most in
      let late = λ (n : ℕ). ltb (start + timeout) (clock n) in
      let there : late (0 + passes.0) ≡ true =
        subst (λ k. late k ≡ true) (omega arith) (lt→ltb _ _ passes.1) in
      let (n, le, e) = retry-Ended late passes.0 0 there in
      (n, capped late n most (lt→ltb _ _ (omega (arith, past))) e.first, e)
