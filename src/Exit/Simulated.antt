-- ===== src/Exit/Simulated.antt =====
-- A simulated machine for the tests of internal/vpn/exit.go and usexit.go: `ip rule` on rules kept as
-- a function; every other command does nothing.
use Prim.Native.String.{count, [] as empty, ◌∷◌ as one_more}
use Prim.Native.String.count.{cons as count_cons}
use Prim.Native.Char.{nul}
use aw_remote_host.Common.{
  [], if◌then◌else◌, length, take, length-append, take-append, ℕ, zero, suc, ◌-◌, String, ◌≡◌, refl,
  ap, Bool, none, some, List, ◌∷◌, ◌++◌, arith, str_eq, sym, ◌∙◌, subst, true, false,
}
use aw_remote_host.Runner.{Runner, Reply}
use aw_remote_host.Exit.Rules.{Text, is_no_such_rule}
use aw_remote_host.Exit.Rules.Kernel.{Kernel, Rules, put}
use aw_remote_host.Exit.Select.Routing.{AreReserved}
use aw_remote_host.Exit.Rules.Enough.{IsPermitted}

-- A number by so many characters.
abbrev pub itoa : ℕ → String
itoa zero = empty
itoa (suc n) = one_more nul (itoa n)

pub count-itoa : (n : ℕ) → count (itoa n) ≡ n
count-itoa zero = refl
count-itoa (suc n) = count_cons nul (itoa n) ∙ ap suc (count-itoa n)

abbrev pub words : Text
words = record { itoa = itoa; lower = λ s. s; contains = λ s part. str_eq s part; trim = λ s. s }

abbrev pub done : Reply
done = record { output = ""; failure = none }

abbrev pub refused : String → Reply
refused text = record { output = text; failure = some "exit status 2" }

abbrev pub last_of : String → List String → String
last_of x [] = x
last_of x (y ∷ ys) = last_of y ys

pub last_of-append : (x a s : String) (rule : List String) → last_of x (rule ++ a ∷ s ∷ []) ≡ s
last_of-append x a s [] = refl
last_of-append x a s (y ∷ rule) = last_of-append y a s rule

abbrev pub but_two : List String → List String
but_two args = take (length args - 2) args

pub but_two-append : (a s : String) (rule : List String) → but_two (rule ++ a ∷ s ∷ []) ≡ rule
but_two-append a s rule =
    let l = length-append rule (a ∷ s ∷ []) in take-append _ rule (a ∷ s ∷ []) (omega (arith, l))

abbrev pub add_at : ℕ → List String → Rules → Rules × Reply
add_at p rule w = (put p (w p ++ rule ∷ []) w, done)

abbrev pub delete_from : ℕ → List (List String) → Rules → Rules × Reply
delete_from p [] w = (w, refused "no such file")
delete_from p (rule ∷ rest) w = (put p rest w, done)

-- The commands that exit.go runs, on rules kept as a function; `full` tells which rule is refused.
abbrev pub simulate : (List String → Bool) → List String → Rules → Rules × Reply
simulate full [] w = (w, refused "usage")
simulate full (verb ∷ []) w = (w, refused "usage")
simulate full (verb ∷ op ∷ rest) w =
    if str_eq op "add"
    then (if full (but_two rest)
        then (w, refused "no memory")
        else add_at (count (last_of op rest)) (but_two rest) w)
    else (if str_eq op "del"
        then delete_from (count (last_of op rest)) (w (count (last_of op rest))) w
        else (w, refused "usage"))

abbrev pub simulated : (List String → Bool) → Runner
simulated full = record {
  World = Rules;
  run = λ name args w. if str_eq name "ip" then simulate full args w else (w, done);
}

delete_from-failed :
    (p : ℕ) (rules : List (List String)) (w : Rules) (e : String)
    → (delete_from p rules w).1.failure ≡ some e
    → (delete_from p rules w).0 ≡ w
delete_from-failed p [] w e h = refl
delete_from-failed p (rule ∷ rest) w e h = absurd (ground (arith, h))

delete_from-deleted :
    (p : ℕ) (rules : List (List String)) (w : Rules)
    → (delete_from p rules w).1.failure ≡ none
    → (rule : List String) × (rest : List (List String)) × (rules ≡ rule ∷ rest)
      × ((delete_from p rules w).0 ≡ put p rest w)
delete_from-deleted p [] w h = absurd (ground (arith, h))
delete_from-deleted p (rule ∷ rest) w h = (rule, rest, refl, refl)

pub delete_from-no_such :
    (p : ℕ) (rules : List (List String)) (w : Rules) (e : String)
    → (delete_from p rules w).1.failure ≡ some e
    → rules ≡ []
delete_from-no_such p [] w e h = refl
delete_from-no_such p (rule ∷ rest) w e h = absurd (ground (arith, h))

delete_from-permitted :
    (p : ℕ) (rules : List (List String)) (w : Rules) (e : String)
    → (delete_from p rules w).1.failure ≡ some e
    → is_no_such_rule words (delete_from p rules w).1.output ≡ true
unfolding is_no_such_rule
delete_from-permitted p [] w e h = refl
delete_from-permitted p (rule ∷ rest) w e h = absurd (ground (arith, h))

added_or_refused :
    (full : Bool) (p : ℕ) (rule : List String) (w : Rules)
    → (if full then (w, refused "no memory") else add_at p rule w).1.failure ≡ none
    → (if full then (w, refused "no memory") else add_at p rule w).0 ≡ put p (w p ++ rule ∷ []) w
added_or_refused true p rule w h = absurd (ground (arith, h))
added_or_refused false p rule w h = refl

pub simulate-added :
    (full : List String → Bool) (w : Rules) (rule rule' : List String) (s : String) (p : ℕ)
    → but_two (rule ++ "priority" ∷ s ∷ []) ≡ rule'
    → count (last_of "add" (rule ++ "priority" ∷ s ∷ [])) ≡ p
    → (simulate full ("rule" ∷ "add" ∷ (rule ++ "priority" ∷ s ∷ [])) w).1.failure ≡ none
    → (simulate full ("rule" ∷ "add" ∷ (rule ++ "priority" ∷ s ∷ [])) w).0
      ≡ put p (w p ++ rule' ∷ []) w
simulate-added full w rule rule' s p b l h =
    subst
      (λ x.
        (simulate full ("rule" ∷ "add" ∷ (rule ++ "priority" ∷ s ∷ [])) w).0
        ≡ put x (w x ++ rule' ∷ []) w)
      l
      (subst
        (λ x.
          (simulate full ("rule" ∷ "add" ∷ (rule ++ "priority" ∷ s ∷ [])) w).0
          ≡ put (count (last_of "add" (rule ++ "priority" ∷ s ∷ [])))
              (w (count (last_of "add" (rule ++ "priority" ∷ s ∷ []))) ++ x ∷ []) w)
        b (added_or_refused (full (but_two (rule ++ "priority" ∷ s ∷ []))) _ _ w h))

pub simulate-failed :
    (full : List String → Bool) (args : List String) (w : Rules) (e : String)
    → (simulate full args w).1.failure ≡ some e
    → (simulate full args w).0 ≡ w
simulate-failed full [] w e h = refl
simulate-failed full (verb ∷ []) w e h = refl
simulate-failed full (verb ∷ op ∷ rest) w e h =
    by_op (str_eq op "add") (str_eq op "del") (full (but_two rest)) h
  where
    by_op :
        (a d f : Bool)
        → (if a
            then (if f
                then (w, refused "no memory")
                else add_at (count (last_of op rest)) (but_two rest) w)
            else (if d
                then delete_from (count (last_of op rest)) (w (count (last_of op rest))) w
                else (w, refused "usage"))).1.failure
          ≡ some e
        → (if a
            then (if f
                then (w, refused "no memory")
                else add_at (count (last_of op rest)) (but_two rest) w)
            else (if d
                then delete_from (count (last_of op rest)) (w (count (last_of op rest))) w
                else (w, refused "usage"))).0
          ≡ w
    by_op true d true h = refl
    by_op true d false h = absurd (ground (arith, h))
    by_op false true f h = delete_from-failed (count (last_of op rest)) _ w e h
    by_op false false f h = refl

pub deleted_at :
    (full : List String → Bool) (w : Rules) (n p : ℕ)
    → n ≡ p
    → (delete_from n (w n) w).1.failure ≡ none
    → (rule : List String) × (rest : List (List String)) × (w p ≡ rule ∷ rest)
      × ((delete_from n (w n) w).0 ≡ put p rest w)
deleted_at full w n p e h =
    subst
      (λ m.
        (rule : List String) × (rest : List (List String)) × (w m ≡ rule ∷ rest)
        × ((delete_from n (w n) w).0 ≡ put m rest w))
      e (delete_from-deleted n (w n) w h)

abbrev pub simulated_kernel : (full : List String → Bool) → Kernel (simulated full) words
simulated_kernel full = record {
  rules = λ w. w;
  added = λ w rule p h.
      simulate-added full w rule rule (itoa p) p (but_two-append _ _ rule)
        (ap count (last_of-append _ _ _ rule) ∙ count-itoa p) h;
  deleted = λ w p h. deleted_at full w (count (itoa p)) p (count-itoa p) h;
  no_such = λ w p h n. ap w (sym (count-itoa p)) ∙ delete_from-no_such (count (itoa p)) _ w _ h;
  failed = λ w args h. simulate-failed full args w _ h;
}

pub simulated_permits : (full : List String → Bool) → IsPermitted (simulated full) words
simulated_permits full w p e h = delete_from-permitted (count (itoa p)) _ w e h

pub simulated_reserves :
    (full : List String → Bool) → AreReserved (simulated full) words (simulated_kernel full)
simulated_reserves full name args w q n m = rw n refl
