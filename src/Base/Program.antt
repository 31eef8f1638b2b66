-- ===== src/Base/Program.antt =====
-- Programs as trees of calls to the outside, so that the calls of programs that run at once can
-- interleave: sequencing, loops and early returns, and how a program runs alone or among others.
use Prim.Native.Nat.{ℕ, zero, suc}
use mathlib.Core.Path.{◌≡◌, refl}
use mathlib.Core.Bool.{Bool}
use mathlib.Core.Option.{Option, none, some}
use mathlib.Core.List.{List, [], ◌∷◌}

-- `C` are the calls and `R c` what the call `c` returns. `crash` is a panic that nothing recovers.
pub data Program (C : Type 0) (R : C → Type 0) (A : Type 0) : Type 0 where
  ret : A → Program C R A
  crash : Program C R A
  call : (c : C) → (R c → Program C R A) → Program C R A

module _ {C : Type 0} {R : C → Type 0} where
  infixl 5 ◌>>=◌ ◌>>◌
  abbrev pub ◌>>=◌ : {A B : Type 0} → Program C R A → (A → Program C R B) → Program C R B
  ret a >>= f = f a
  crash >>= f = crash
  call c k >>= f = call c (λ r. k r >>= f)

  abbrev pub ◌>>◌ : {A B : Type 0} → Program C R A → Program C R B → Program C R B
  m >> k = m >>= λ _. k

  -- One call, and its answer.
  abbrev pub ask : (c : C) → Program C R (R c)
  ask c = call c (λ r. ret r)

  abbrev pub skip : Program C R (Unit {0})
  skip = ret tt

  -- A call whose error is only logged.
  abbrev pub log_error : Program C R Bool → Program C R (Unit {0})
  log_error m = m >>= λ _. skip

  -- `for _, x := range list`
  unfoldable pub for_each :
      {X : Type 0} → (X → Program C R (Unit {0})) → List X → Program C R (Unit {0})
  for_each body [] = skip
  for_each body (x ∷ xs) = body x >> for_each body xs

  -- `if err != nil { return }`, or `continue`, after a read.
  abbrev pub or_skip :
      {A : Type 0} → Option A → (A → Program C R (Unit {0})) → Program C R (Unit {0})
  or_skip none f = skip
  or_skip (some a) f = f a

  -- The same with a log line that reads a field of the pointer that is nil on an error.
  abbrev pub or_crash :
      {A : Type 0} → Option A → (A → Program C R (Unit {0})) → Program C R (Unit {0})
  or_crash none f = crash
  or_crash (some a) f = f a

pub data Outcome (A : Type 0) : Type 0 where
  returned : A → Outcome A
  crashed : Outcome A

-- `handle` answers a call and gives the world after it.
module _ {C : Type 0} {R : C → Type 0} {W : Type 0} (handle : (c : C) → W → R c × W) where
  -- A program that runs alone.
  unfoldable pub run : {A : Type 0} → Program C R A → W → Outcome A × W
  run (ret a) s = (returned a, s)
  run crash s = (crashed, s)
  run (call c k) s = let (r, s') = handle c s in run (k r) s'

  -- One call of the i-th program. A program that has ended stands still.
  unfoldable pub advance : {A : Type 0} → ℕ → List (Program C R A) → W → List (Program C R A) × W
  advance i [] s = ([], s)
  advance zero (ret a ∷ ps) s = (ret a ∷ ps, s)
  advance zero (crash ∷ ps) s = (crash ∷ ps, s)
  advance zero (call c k ∷ ps) s = let (r, s') = handle c s in (k r ∷ ps, s')
  advance (suc i) (p ∷ ps) s = let (ps', s') = advance i ps s in (p ∷ ps', s')

  -- A schedule names the program that makes each next call.
  unfoldable pub interleave :
      {A : Type 0} → List ℕ → List (Program C R A) → W → List (Program C R A) × W
  unfolding advance
  interleave [] ps s = (ps, s)
  interleave (i ∷ is) ps s = let (ps', s') = advance i ps s in interleave is ps' s'

  abbrev pub continue : {A B : Type 0} → (A → Program C R B) → Outcome A × W → Outcome B × W
  continue f (returned a, s) = run (f a) s
  continue f (crashed, s) = (crashed, s)

  -- Running a sequence is running one program after the other, up to a crash.
  pub run->>= :
      {A B : Type 0} (p : Program C R A) (f : A → Program C R B) (s : W)
      → run (p >>= f) s ≡ continue f (run p s)
  unfolding run
  run->>= (ret a) f s = refl
  run->>= crash f s = refl
  run->>= (call c k) f s = run->>= (k (handle c s).0) f (handle c s).1

  -- What holds after a sequence, from what holds after its second part and where the first ends.
  pub run->>=-holds :
      {A B : Type 0} (P : W → Type 0) (p : Program C R A) (f : A → Program C R B) (s : W)
      → P (run p s).1
      → ((a : A) → (run p s).0 ≡ returned a → P (run (f a) (run p s).1).1)
      → P (run (p >>= f) s).1
  unfolding run
  run->>=-holds P (ret a) f s h k = k a refl
  run->>=-holds P crash f s h k = h
  run->>=-holds P (call c m) f s h k = run->>=-holds P (m (handle c s).0) f (handle c s).1 h k
