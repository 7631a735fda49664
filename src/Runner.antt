-- ===== src/Runner.antt =====
-- The Runner interface of internal/firewall/firewall.go (and of internal/vpn and internal/ops): a
-- command is run in the world outside the process and gives its output and perhaps an error.
use aw_remote_host.Common.{String, ◌≡◌, refl, Option, List, Result, ok, err}

pub record Reply : Type 0 where
  pub output : String
  pub failure : Option String

pub record Runner : Type 1 where
  pub World : Type 0
  pub run : String → List String → World → World × Reply

-- A step that changes the world and may fail; what was done before a failure stays done.
abbrev pub Step {ℓ} : Type 0 → Type 0 → Type ℓ → Type ℓ
Step W E A = W → W × Result E A

-- The second half of `m >>= f`, once `m` has run.
abbrev pub resume {ℓ κ} :
    {W E : Type 0} {A : Type ℓ} {B : Type κ} → W × Result E A → (A → Step W E B) → W × Result E B
resume (w', ok a) f = f a w'
resume (w', err e) f = (w', err e)

infixl 5 ◌>>=◌ ◌>>◌
abbrev pub ◌>>=◌ {ℓ κ} :
    {W E : Type 0} {A : Type ℓ} {B : Type κ} → Step W E A → (A → Step W E B) → Step W E B
◌>>=◌ m f w = resume (m w) f

abbrev pub ◌>>◌ {ℓ} : {W E : Type 0} {B : Type ℓ} → Step W E (Unit {0}) → Step W E B → Step W E B
m >> k = m >>= λ _. k

pub resume-ok {ℓ κ} :
    {W E : Type 0} {A : Type ℓ} {B : Type κ} (p : W × Result E A) (f : A → Step W E B) {b : B}
    → (resume p f).1 ≡ ok b
    → (a : A) × (p.1 ≡ ok a) × ((f a p.0).1 ≡ ok b) × ((resume p f).0 ≡ (f a p.0).0)
resume-ok (w', ok a) f h = (a, refl, h, refl)
resume-ok (w', err e) f h = cc

-- What a successful chain of two steps went through.
pub >>=-ok {ℓ κ} :
    {W E : Type 0} {A : Type ℓ} {B : Type κ} (m : Step W E A) (f : A → Step W E B) (w : W) {b : B}
    → ((m >>= f) w).1 ≡ ok b
    → (a : A) × ((m w).1 ≡ ok a) × ((f a (m w).0).1 ≡ ok b) × (((m >>= f) w).0 ≡ (f a (m w).0).0)
>>=-ok m f w h = resume-ok (m w) f h
