-- ===== src/Assets/Folders/Steps.antt =====
-- What a request on folders leaves, one statement at a time.
use titan_explorer.Base.{ℕ, suc, ◌≤◌, ◌≡◌, refl, Bool, true, false, none, some, if◌then◌else◌}
use titan_explorer.Base.Program
use titan_explorer.Base.Program.{
  Outcome, returned, crashed, ret, call, ask, ◌>>=◌, ◌>>◌, continue, run->>=,
}
use titan_explorer.Assets.Types.{Tables}
use titan_explorer.Assets.Prog.{Stmt, Cmd, Prog}
use titan_explorer.Assets.Store.{
  World, restored, refused, succeed, fail, failed, answer, effect, run,
}
use titan_explorer.Assets.Files.{exec}
use titan_explorer.Assets.Files.Steps.{call-holds}
use titan_explorer.Assets.Folders.{
  Result, ok, refuse, out_of_fuel, GroupError, exec_last, begin_then, or_roll_back, commit_last,
}
use titan_explorer.Assets.Folders.Shape.{IsForest}

module _ (fails : ℕ → Bool) (m : ℕ) where
  -- A request leaves a forest, and gives up only where the fuel is at most `m`.
  abbrev pub Kept : {A : Type 0} → ℕ → Outcome (Result A) × World → Type 0
  Kept fuel (returned out_of_fuel, w) = IsForest w.tables × (w.saved ≡ none) × (fuel ≤ m)
  Kept fuel (returned _, w) = IsForest w.tables × (w.saved ≡ none)
  Kept fuel (crashed, w) = ⊥

  abbrev pub at : Tables → ℕ → World
  at t n = record { tables = t; saved = none; tick = n }

  -- A statement whose error ends the request, or is its result.
  pub exec-Kept :
      {A : Type 0} (fuel : ℕ) (s : Stmt) (k : Bool → Prog (Result A)) (w : World)
      → Kept fuel (run fails (k true) (fail (Cmd.exec s) w))
      → ((err : Bool) → Kept fuel (run fails (k err) (succeed (Cmd.exec s) w)))
      → Kept fuel (run fails (do err ← exec s; k err) w)
  unfolding Program.run failed answer
  exec-Kept {A} fuel s k w p q =
      call-holds (Kept {A = A} fuel) fails (Cmd.exec s) k w p (q (refused s w.tables))

  -- A request that is over.
  pub over :
      (fuel : ℕ) (b : Bool) (w : World)
      → IsForest w.tables
      → w.saved ≡ none
      → Kept {A = Unit {0}} fuel (returned (if b then refuse GroupError.db_error else ok tt), w)
  over fuel true w h s = (h, s)
  over fuel false w h s = (h, s)

  -- The statement that ends a request outside of a transaction.
  pub exec_last-Kept :
      (fuel : ℕ) (s : Stmt) (t : Tables) (n : ℕ)
      → IsForest t
      → fail (Cmd.exec s) (at t n) ≡ at t (suc n)
      → succeed (Cmd.exec s) (at t n) ≡ at (effect s t) (suc n)
      → IsForest (effect s t)
      → Kept fuel (run fails (exec_last s) (at t n))
  unfolding Program.run
  exec_last-Kept fuel s t n h f g h' =
      exec-Kept fuel s (λ err. ret (if err then refuse GroupError.db_error else ok tt)) (at t n)
        (rw f (h, refl)) (λ err. rw g (over fuel err _ h' refl))

  -- The end of a transaction, by which what is restored counts.
  pub roll_back-Kept :
      {A : Type 0} (fuel : ℕ) (r : Result A) (w : World)
      → ((w' : World) → IsForest w'.tables → w'.saved ≡ none → Kept fuel (returned r, w'))
      → IsForest (restored w)
      → Kept fuel (run fails (do exec Stmt.rollback; ret r) w)
  unfolding Program.run fail succeed
  roll_back-Kept fuel r w k h =
      exec-Kept fuel Stmt.rollback (λ _. ret r) w (k _ h refl) (λ _. k _ h refl)

  pub commit-Kept :
      (fuel : ℕ) (t u : Tables) (n : ℕ)
      → IsForest t
      → IsForest u
      → Kept fuel (run fails commit_last (record { tables = u; saved = some t; tick = n }))
  unfolding Program.run fail succeed
  commit-Kept fuel t u n h h' =
      exec-Kept fuel Stmt.commit
        (λ err. do exec Stmt.rollback; ret (if err then refuse GroupError.db_error else ok tt))
        (record { tables = u; saved = some t; tick = n })
        (roll_back-Kept {A = Unit {0}} fuel (refuse GroupError.db_error) _ (λ w k s. (k, s)) h)
        (λ err. roll_back-Kept {A = Unit {0}} fuel _ _ (over fuel err) h')

  -- The begin of a transaction.
  pub begin-Kept :
      (fuel : ℕ) (rest : Prog (Result (Unit {0}))) (t : Tables) (n : ℕ)
      → IsForest t
      → Kept fuel (run fails rest (record { tables = t; saved = some t; tick = suc n }))
      → Kept fuel (run fails (begin_then rest) (at t n))
  unfolding Program.run fail succeed failed answer refused
  begin-Kept fuel rest t n h k =
      call-holds (Kept {A = Unit {0}} fuel) fails (Cmd.exec Stmt.begin)
        (λ err. if err then ret (refuse GroupError.db_error) else rest) (at t n) (h, refl) k

  -- `if err != nil { return err }` in a transaction.
  pub in_tx-Kept :
      (fuel : ℕ) (s : Stmt) (rest : Prog (Result (Unit {0}))) (t u u' : Tables) (n : ℕ)
      → IsForest t
      → fail (Cmd.exec s) (record { tables = u; saved = some t; tick = n })
        ≡ record { tables = u; saved = some t; tick = suc n }
      → succeed (Cmd.exec s) (record { tables = u; saved = some t; tick = n })
        ≡ record { tables = u'; saved = some t; tick = suc n }
      → Kept fuel (run fails rest (record { tables = u'; saved = some t; tick = suc n }))
      → Kept fuel
          (run fails (or_roll_back s rest) (record { tables = u; saved = some t; tick = n }))
  in_tx-Kept fuel s rest t u u' n h f g k =
      exec-Kept fuel s after (record { tables = u; saved = some t; tick = n })
        (rw f (roll_back-Kept fuel (refuse GroupError.db_error) _ (λ w k s. (k, s)) h))
        (λ err. rw g (after-Kept err))
    where
      after : Bool → Prog (Result (Unit {0}))
      after err = if err then (do exec Stmt.rollback; ret (refuse GroupError.db_error)) else rest

      after-Kept :
          (err : Bool)
          → Kept fuel (run fails (after err) (record { tables = u'; saved = some t; tick = suc n }))
      after-Kept true =
          roll_back-Kept {A = Unit {0}} fuel (refuse GroupError.db_error) _ (λ w k s. (k, s)) h
      after-Kept false = k
