-- ===== src/Exec/Output.antt =====
-- The capped output buffer of internal/ops/ops_exec.go.
use aw_remote_host.Common.{
  ℕ, leb, Bool-cases, length, take, ◌≤◌, ◌≡◌, inl, inr, List, [], ◌∷◌, ◌++◌, ltb, length-take,
  take_past, take_all, take-append_take, ◌+◌, ◌-◌, ◌<◌, refl, sym, ap, ◌∙◌, ◌↔◌, arith,
}
use aw_remote_host.Exec.{write_capped}
use mathlib.Core.List.{append_assoc, append-nil}

-- The contents after the writes of a stream, one after the other.
unfoldable pub write_all : ℕ → List (List ℕ) → List ℕ → List ℕ
write_all cap [] buf = buf
write_all cap (p ∷ ps) buf = write_all cap ps (write_capped cap p buf).0

unfoldable pub joined : List (List ℕ) → List ℕ
joined [] = []
joined (p ∷ ps) = p ++ joined ps

-- A write keeps what there was and appends what fits.
write_capped-append :
    (cap : ℕ) (p buf : List ℕ)
    → length buf ≤ cap
    → (write_capped cap p buf).0 ≡ buf ++ take (cap - length buf) p
unfolding write_capped
write_capped-append cap p buf h = elim (Bool-cases (leb cap (length buf))) [
  | inl full ↦
      let none_left : cap - length buf ≡ 0 = ground (arith, full) in
      rw full (rw none_left (rw append-nil refl))
  | inr some_left ↦ rw some_left (elim (Bool-cases (ltb (cap - length buf) (length p))) [
    | inl over ↦ rw over refl
    | inr fits ↦
        rw fits (ap (λ t. buf ++ t) (sym (take_all (cap - length buf) p (ground (arith, fits)))))
  ])
]

write_capped-take :
    (cap : ℕ) (p buf : List ℕ) → length buf ≤ cap → (write_capped cap p buf).0 ≡ take cap (buf ++ p)
write_capped-take cap p buf h = write_capped-append cap p buf h ∙ sym (take_past cap buf p h)

length-write_capped :
    (cap : ℕ) (p buf : List ℕ) → length buf ≤ cap → length (write_capped cap p buf).0 ≤ cap
length-write_capped cap p buf h =
    rw (write_capped-take cap p buf h) (omega (arith, length-take cap (buf ++ p)))

-- After any sequence of writes a capped buffer holds the first `cap` bytes of all that was written.
pub write_all-eq-take :
    (cap : ℕ) (ps : List (List ℕ)) (buf : List ℕ)
    → length buf ≤ cap
    → write_all cap ps buf ≡ take cap (buf ++ joined ps)
unfolding write_all joined
write_all-eq-take cap [] buf h = rw append-nil (sym (take_all cap buf h))
write_all-eq-take cap (p ∷ ps) buf h =
    write_all-eq-take cap ps (write_capped cap p buf).0 (length-write_capped cap p buf h)
    ∙ (ap (λ t. take cap (t ++ joined ps)) (write_capped-take cap p buf h)
        ∙ (take-append_take cap (buf ++ p) (joined ps) ∙ rw append_assoc refl))

-- A write reports fewer bytes than it was given, with no error, exactly when the buffer was not
-- full and the bytes cross the cap; then it reports how many it kept. io.Writer forbids that, and
-- the copying goroutine of os/exec takes it for a failed write.
pub write_capped-short :
    (cap : ℕ) (p buf : List ℕ)
    → length buf ≤ cap
    → ((write_capped cap p buf).1 < length p) ↔ ((length buf < cap) × (cap < length buf + length p))
unfolding write_capped
write_capped-short cap p buf h = (λ lt. ground (arith, lt), λ b. ground (arith, b))
