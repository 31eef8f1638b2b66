-- ===== src/Assets/Files/Steps.antt =====
-- What holds after a transaction, one statement at a time.
use titan_explorer.Base.{
  ℕ, suc, ◌≡◌, refl, Bool, true, false, none, some, if◌then◌else◌, Bool-cases, inl, inr,
}
use titan_explorer.Base.Program
use titan_explorer.Base.Program.{
  Program, Outcome, returned, crashed, ret, call, ask, ◌>>=◌, ◌>>◌, continue, run->>=,
}
use titan_explorer.Assets.Types.{Tables}
use titan_explorer.Assets.Prog.{Stmt, Cmd, Resp, Prog}
use titan_explorer.Assets.Store.{
  World, restored, refused, succeed, fail, failed, answer, effect, handle, run,
}
use titan_explorer.Assets.Files.{exec, or_error, in_tx}

-- A call, by whether it fails.
pub call-holds :
    {A : Type 0} (P : Outcome A × World → Type 0) (fails : ℕ → Bool) (c : Cmd) (k : Resp c → Prog A)
    (w : World)
    → P (run fails (k (failed c)) (fail c w))
    → P (run fails (k (answer c w.tables)) (succeed c w))
    → P (run fails (call c k) w)
unfolding Program.run handle
call-holds P fails c k w p q = elim (Bool-cases (fails w.tick)) [ inl e ↦ rw e p | inr e ↦ rw e q ]

-- A statement that ends the function where it fails.
pub or_error-holds :
    (P : Outcome Bool × World → Type 0) (fails : ℕ → Bool) (s : Stmt) (rest : Prog Bool) (w : World)
    → P (returned true, fail (Cmd.exec s) w)
    → (refused s w.tables ≡ true → P (returned true, succeed (Cmd.exec s) w))
    → (refused s w.tables ≡ false → P (run fails rest (succeed (Cmd.exec s) w)))
    → P (run fails (or_error s rest) w)
unfolding Program.run failed answer
or_error-holds P fails s rest w p q r =
    call-holds P fails (Cmd.exec s) (λ err. if err then ret true else rest) w p
      (elim (Bool-cases (refused s w.tables)) [ inl e ↦ rw e (q e) | inr e ↦ rw e (r e) ])

-- A body returns, and what it leaves holds once it is rolled back, which a commit prevents.
abbrev pub Leaves : {A : Type 0} → (A → Tables → Type 0) → Outcome A × World → Type 0
Leaves P (returned a, w) = P a (restored w)
Leaves P (crashed, w) = ⊥

-- The result, and the tables after a program that does not crash.
abbrev pub Ends : {A : Type 0} → (A → Tables → Type 0) → Outcome A × World → Type 0
Ends P (returned a, w) = P a w.tables × (w.saved ≡ none)
Ends P (crashed, w) = ⊥

module _ (P : Bool → Tables → Type 0) (fails : ℕ → Bool) (t : Tables) (h : P true t) where
  then_rollback :
      (r : Outcome Bool × World)
      → Leaves P r
      → Ends P
          (continue (handle fails) {A = Bool} {B = Bool} (λ err. do exec Stmt.rollback; ret err) r)
  unfolding Program.run fail succeed
  then_rollback (returned a, w) h =
      call-holds (Ends P) fails (Cmd.exec Stmt.rollback) (λ _. ret a) w (h, refl) (h, refl)
  then_rollback (crashed, w) h = absurd h

  -- In the transaction that began with the tables `t`.
  abbrev pub open_at : Tables → ℕ → World
  open_at u n = record { tables = u; saved = some t; tick = n }

  pub in_tx-Ends :
      (body : Prog Bool) (n : ℕ)
      → Leaves P (run fails body (open_at t (suc n)))
      → Ends P (run fails (in_tx body) (record { tables = t; saved = none; tick = n }))
  unfolding succeed fail refused
  in_tx-Ends body n b =
      or_error-holds (Ends P) fails Stmt.begin (do err ← body; exec Stmt.rollback; ret err)
        (record { tables = t; saved = none; tick = n }) (h, refl) (λ e. cc)
        (λ _. rw (run->>= (handle fails) body) (then_rollback _ b))

  -- The commit, where what it leaves is what is wanted.
  pub commit-Leaves :
      (u : Tables) (n : ℕ) → P false u → Leaves P (run fails (exec Stmt.commit) (open_at u n))
  unfolding Program.run succeed fail failed answer refused
  commit-Leaves u n b =
      call-holds (Leaves P) fails (Cmd.exec Stmt.commit) (λ r. ret r) (open_at u n) h b

  -- A statement of the transaction that is not its end.
  pub stmt-Leaves :
      (s : Stmt) (rest : Prog Bool) (u : Tables) (n : ℕ)
      → fail (Cmd.exec s) (open_at u n) ≡ open_at u (suc n)
      → succeed (Cmd.exec s) (open_at u n) ≡ open_at (effect s u) (suc n)
      → (refused s u ≡ false → Leaves P (run fails rest (open_at (effect s u) (suc n))))
      → Leaves P (run fails (or_error s rest) (open_at u n))
  stmt-Leaves s rest u n f g r =
      or_error-holds (Leaves P) fails s rest (open_at u n) (rw f h) (λ _. rw g h) (λ e. rw g (r e))
