-- ===== src/Token/Run/Ledger.antt =====
-- However faucet requests interleave, no more is paid than was booked, nor recorded than paid.
use titan_explorer.Base.Program.{ret, crash, call, advance, interleave}
use titan_explorer.Base.{ℕ, zero, suc, ◌+◌, ◌≡◌, String, Option, none, List, [], ◌∷◌, map, arith}
use titan_explorer.Base.Int.{ℤ}
use titan_explorer.Token.Calendar.{Hour}
use titan_explorer.Token.Prog.{Prog}
use titan_explorer.Token.Store.{Tables, Oracle}
use titan_explorer.Token.Run.{World, handle, Task, program, serve}
use titan_explorer.Token.Run.Totals.{Grows, Grows-refl, effect-Grows}
use titan_explorer.Token.Run.Step.{
  KnowsHour, KnowsAccount, Covers, Grows-KnowsHour, Grows-KnowsAccount, Holds, holds, step,
}
use titan_explorer.Token.Run.Spends.{
  Spends, receive_token_handler-Spends, get_distributed_amount_handler-Spends,
  get_receive_history_handler-Spends,
}

-- Programs that run at once, what they know, and the sums of what they owe.
data Pool {A : Type 0} (t : Tables) : ℕ → ℕ → ℕ → List (Prog A) → Type 0 where
  nobody : Pool t 0 0 0 []
  somebody :
      {h : Option Hour} {a : Option String} {x y z x' y' z' : ℕ} {p : Prog A} {ps : List (Prog A)}
      → Spends h a x y z p
      → KnowsHour h t
      → KnowsAccount a t
      → Pool t x' y' z' ps
      → Pool t (x + x') (y + y') (z + z') (p ∷ ps)

Pool-Grows :
    {A : Type 0} {t t' : Tables} {x y z : ℕ} {ps : List (Prog A)}
    → Grows t t'
    → Pool t x y z ps
    → Pool t' x y z ps
Pool-Grows g nobody = nobody
Pool-Grows g (somebody {h} {a} s kh ka rest) =
    somebody s (Grows-KnowsHour h g kh) (Grows-KnowsAccount a g ka) (Pool-Grows g rest)

data Owes {A : Type 0} (t : Tables) (ps : List (Prog A)) (x' y' z' : ℕ) : Type 0 where
  owes : {x y z : ℕ} → Pool t x y z ps → Covers t (x + x') (y + y') (z + z') → Owes t ps x' y' z'

Covers-≡ :
    {t : Tables} {x y z x' y' z' : ℕ}
    → Covers t x y z
    → x ≡ x'
    → y ≡ y'
    → z ≡ z'
    → Covers t x' y' z'
Covers-≡ c e f g = record {
  accounts_cover = omega (arith, c.accounts_cover, e);
  hours_cover = omega (arith, c.hours_cover, f);
  payments_cover = omega (arith, c.payments_cover, g);
}

join :
    {A : Type 0} {t : Tables} {p : Prog A} {ps : List (Prog A)} {x y z : ℕ} (x' y' z' : ℕ)
    → Pool t x y z ps
    → Holds t p (x + x') (y + y') (z + z')
    → Owes t (p ∷ ps) x' y' z'
join x' y' z' rest (holds sp kh ka b) =
    owes (somebody sp kh ka rest) (Covers-≡ b (omega arith) (omega arith) (omega arith))

put_back :
    {A : Type 0} {t : Tables} {h : Option Hour} {a : Option String} {x y z : ℕ} {p : Prog A}
    {ps : List (Prog A)} (x' y' z' : ℕ)
    → Spends h a x y z p
    → KnowsHour h t
    → KnowsAccount a t
    → Owes t ps (x + x') (y + y') (z + z')
    → Owes t (p ∷ ps) x' y' z'
put_back x' y' z' sp kh ka (owes rest b) =
    owes (somebody sp kh ka rest) (Covers-≡ b (omega arith) (omega arith) (omega arith))

advance-Owes :
    {A : Type 0} (w : Oracle) (i : ℕ) (ps : List (Prog A)) (s : World) (x' y' z' : ℕ)
    → Owes s.tables ps x' y' z'
    → let (ps', s') = advance (handle w) i ps s in
      Grows s.tables s'.tables × Owes s'.tables ps' x' y' z'
unfolding advance
advance-Owes w i [] s x' y' z' o = (Grows-refl s.tables, o)
advance-Owes w zero (ret a ∷ ps) s x' y' z' o = (Grows-refl s.tables, o)
advance-Owes w zero (crash ∷ ps) s x' y' z' o = (Grows-refl s.tables, o)
advance-Owes w zero (call c k ∷ ps) s x' y' z' (owes (somebody sp kh ka rest) b) =
    let g = effect-Grows w s.tick c s.tables in
    (
      g,
      join x' y' z' (Pool-Grows g rest) (
          step w s.tick s.tables _ _ _ sp kh ka
            (Covers-≡ b (omega arith) (omega arith) (omega arith))),
    )
advance-Owes w (suc i) (p ∷ ps) s x' y' z' (owes (somebody {h} {a} {x} {y} {z} sp kh ka rest) b) =
    let (g, o) =
      advance-Owes w i ps s (x + x') (y + y') (z + z')
        (owes rest (Covers-≡ b (omega arith) (omega arith) (omega arith))) in
    (g, put_back x' y' z' sp (Grows-KnowsHour h g kh) (Grows-KnowsAccount a g ka) o)

interleave-Owes :
    {A : Type 0} (w : Oracle) (is : List ℕ) (ps : List (Prog A)) (s : World)
    → Owes s.tables ps 0 0 0
    → let (ps', s') = interleave (handle w) is ps s in Owes s'.tables ps' 0 0 0
unfolding interleave
interleave-Owes w [] ps s o = o
interleave-Owes w (i ∷ is) ps s o =
    interleave-Owes w is (advance (handle w) i ps s).0 (advance (handle w) i ps s).1
      (advance-Owes w i ps s 0 0 0 o).1

program-Spends : (zone : ℤ) (task : Task) → Spends none none 0 0 0 (program zone task)
unfolding program
program-Spends zone (Task.receive id) = receive_token_handler-Spends zone id
program-Spends zone (Task.distributed id) = get_distributed_amount_handler-Spends zone id
program-Spends zone (Task.history account page size) =
    get_receive_history_handler-Spends account page size

programs-Pool :
    (t : Tables) (zone : ℤ) (tasks : List Task) → Pool t 0 0 0 (map (program zone) tasks)
programs-Pool t zone [] = nobody
programs-Pool t zone (task ∷ tasks) =
    somebody (program-Spends zone task) tt tt (programs-Pool t zone tasks)

Owes-Covers : {A : Type 0} {t : Tables} {ps : List (Prog A)} → Owes t ps 0 0 0 → Covers t 0 0 0
Owes-Covers (owes rest b) = record {
  accounts_cover = omega (arith, b.accounts_cover);
  hours_cover = omega (arith, b.hours_cover);
  payments_cover = omega (arith, b.payments_cover);
}

-- For any number of faucet requests at once, any interleaving of their calls and any failures: if
-- the transfers so far do not exceed what the accounts' rows and the hours' rows add up to, and the
-- records do not exceed the transfers, then the same holds later.
pub serve-Covers :
    (w : Oracle) (zone : ℤ) (schedule : List ℕ) (tasks : List Task) (s : World)
    → Covers s.tables 0 0 0
    → Covers (serve w zone schedule tasks s).1.tables 0 0 0
unfolding serve
serve-Covers w zone schedule tasks s b = Owes-Covers (
    interleave-Owes w schedule (map (program zone) tasks) s
      (owes (programs-Pool s.tables zone tasks) b))
