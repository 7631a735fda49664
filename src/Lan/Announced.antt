-- ===== src/Lan/Announced.antt =====
-- What the control plane knows from pollLANAddrs of internal/link/link.go.
use aw_remote_host.Common.{
  [], Bool-cases, String, ◌≡◌, refl, ap, sym, ◌⊎◌, ◌∙◌, subst, ◌≢◌, inl, inr, true, List, ◌∷◌,
  arith, str_eq, eq_iff, eq_refl,
}
use aw_remote_host.Lan.{lan_addrs_equal, poll_from, poll_lan_addrs}

lan_addrs_equal-eq : (xs ys : List String) → lan_addrs_equal xs ys ≡ true → xs ≡ ys
unfolding lan_addrs_equal
lan_addrs_equal-eq [] [] e = refl
lan_addrs_equal-eq [] (y ∷ ys) e = absurd (ground (arith, e))
lan_addrs_equal-eq (x ∷ xs) [] e = absurd (ground (arith, e))
lan_addrs_equal-eq (x ∷ xs) (y ∷ ys) e = elim (Bool-cases (str_eq x y)) [
  | inl same ↦
      let tails : xs ≡ ys = lan_addrs_equal-eq xs ys (ground (arith, same, e)) in
      ap (λ t. t ∷ xs) ((eq_iff x y).0 same) ∙ ap (λ t. y ∷ t) tails
  | inr other ↦ absurd (ground (arith, other, e))
]

lan_addrs_equal_self : (xs : List String) → lan_addrs_equal xs xs ≡ true
unfolding lan_addrs_equal
lan_addrs_equal_self [] = refl
lan_addrs_equal_self (x ∷ xs) = rw (eq_refl x) (lan_addrs_equal_self xs)

-- The last of a series, or what was there before it.
abbrev pub latest : List String → List (List String) → List String
latest last [] = last
latest last (cur ∷ more) = latest cur more

-- No frame repeats the one before it.
abbrev pub IsNews : List String → List (List String) → Type 0
IsNews last [] = Unit
IsNews last (frame ∷ frames) = (last ≢ frame) × IsNews frame frames

poll_from-latest :
    (last : List String) (ticks : List (List String))
    → (latest last (poll_from last ticks) ≡ latest last ticks) × IsNews last (poll_from last ticks)
unfolding poll_from
poll_from-latest last [] = (refl, tt)
poll_from-latest last (cur ∷ ticks) = elim (Bool-cases (lan_addrs_equal last cur)) [
  | inl same ↦
      let e : last ≡ cur = lan_addrs_equal-eq last cur same in
      let (known, news) = poll_from-latest last ticks in
      rw same (known ∙ ap (λ l. latest l ticks) e, news)
  | inr other ↦
      let (known, news) = poll_from-latest cur ticks in
      rw other (known, (λ e. absurd (ground (arith, other, differs e)), news))
]
  where
    differs : last ≡ cur → lan_addrs_equal last cur ≡ true
    differs e = subst (λ t. lan_addrs_equal last t ≡ true) e (lan_addrs_equal_self last)

-- What the control plane has of the addresses: those of the last frame, or the registered ones.
latest-any :
    (a b : List String) (frames : List (List String))
    → (frames ≡ []) ⊎ (latest a frames ≡ latest b frames)
latest-any a b [] = inl refl
latest-any a b (f ∷ frames) = inr refl

-- Whatever addresses were registered, and from the baseline that pollLANAddrs then reads for itself
-- on, after any series of ticks either nothing has been sent, and then the last reading is that
-- baseline, or the frame sent last has the addresses read last; no frame repeats the one before it,
-- nor the first one the baseline. So what changes between the register frame and the baseline is not
-- announced.
pub poll_lan_addrs-latest :
    (registered baseline : List String) (ticks : List (List String))
    → (((poll_lan_addrs baseline ticks ≡ []) × (latest baseline ticks ≡ baseline))
        ⊎ (latest registered (poll_lan_addrs baseline ticks) ≡ latest baseline ticks))
      × IsNews baseline (poll_lan_addrs baseline ticks)
unfolding poll_lan_addrs
poll_lan_addrs-latest registered baseline ticks =
    let (known, news) = poll_from-latest baseline ticks in
    (
      elim (latest-any registered baseline (poll_from baseline ticks)) [
        | inl none_sent ↦ inl (none_sent, sym known ∙ ap (latest baseline) none_sent)
        | inr same ↦ inr (same ∙ known)
      ],
      news,
    )
