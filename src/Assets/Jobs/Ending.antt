-- ===== src/Assets/Jobs/Ending.antt =====
-- The job as a whole.
use titan_explorer.Base.{
  ℕ, zero, suc, ◌+◌, ◌≤◌, ◌<◌, ◌≡◌, refl, subst, String, Bool, not, none, List, [], ◌∷◌, ◌++◌, keep,
  length, All, arith, ◌==◌, Bool-cases, inl, inr,
}
use titan_explorer.Base.Program
use titan_explorer.Base.Program.{
  Outcome, returned, crashed, ret, call, ask, ◌>>=◌, ◌>>◌, skip, for_each,
}
use titan_explorer.Assets.Types.{Tables}
use titan_explorer.Assets.Prog.{Stmt, Cmd}
use titan_explorer.Assets.Rows.{children, in_groups, only_assets}
use titan_explorer.Assets.Store.{World, succeed, fail, failed, answer, effect, refused, handle, run}
use titan_explorer.Assets.Files.Steps.{call-holds}
use titan_explorer.Assets.Folders.{Result, ok, refuse, out_of_fuel}
use titan_explorer.Assets.Folders.Shape.{IsForest, Counted}
use titan_explorer.Assets.Folders.Depth.{depth-le-length}
use titan_explorer.Assets.Folders.Levels.{Found, Found-All, Deep, children-Deep}
use titan_explorer.Assets.Jobs.{
  delete_user_group_asset, delete_asset_by_group, next_level, delete_asset_group_job,
}
use titan_explorer.Assets.Jobs.Groups.{InJob, keep-not, only_assets-nil, delete_asset_by_group-Then}

-- The job returns, or is given up, and keeps `I`.
abbrev Leaves : (Tables → Type 0) → (ℕ → Type 0) → ℕ → Outcome (Result (Unit {0})) × World → Type 0
Leaves I Given m (returned (ok _), w) = I w.tables
Leaves I Given m (returned (refuse e), w) = ⊥
Leaves I Given m (returned out_of_fuel, w) = I w.tables × Given m
Leaves I Given m (crashed, w) = ⊥

leaves :
    (I : Tables → Type 0) (Given : ℕ → Type 0) (m : ℕ) (r : Outcome (Result (Unit {0})) × World)
    → Leaves I Given m r
    → I r.1.tables
leaves I Given m (returned (ok _), w) h = h
leaves I Given m (returned (refuse e), w) h = absurd h
leaves I Given m (returned out_of_fuel, w) (h, g) = h
leaves I Given m (crashed, w) h = absurd h

-- A rule for the job, over what its statements keep and what is known of each level.
module _ (fails : ℕ → Bool) (I : Tables → Type 0) (u : String) (Level : ℕ → List ℕ → Type 0)
    (Given : ℕ → Type 0)
    (keeps : (ids : List ℕ) (s : Stmt) → InJob u ids s → (t : Tables) → I t → I (effect s t))
    (again : (t : Tables) → I t → I (effect (Stmt.enqueue u []) t))
    (deeper : (k : ℕ) (ids : List ℕ) (t : Tables)
      → I t
      → Level k ids
      → Level (suc k) (children u ids t.groups))
    (deep : (k id : ℕ) (ids : List ℕ) → Level k (id ∷ ids) → Given k) where
  abbrev at : Tables → ℕ → World
  at t n = record { tables = t; saved = none; tick = n }

  job-Leaves :
      (fuel k m n : ℕ) (ids : List ℕ) (t : Tables)
      → Level k ids
      → fuel + k ≡ m
      → I t
      → Leaves I Given m (run fails (delete_asset_group_job fuel u ids) (at t n))
  unfolding Program.run delete_asset_group_job next_level succeed fail failed answer
  job-Leaves zero k m n [] t l e i = i
  job-Leaves (suc fuel) k m n [] t l e i = i
  job-Leaves zero k m n (id ∷ ids) t l e i = (i, subst Given (omega arith) (deep k id ids l))
  job-Leaves (suc fuel) k m n (id ∷ ids) t l e i =
      delete_asset_by_group-Then fails I u (id ∷ ids) (keeps (id ∷ ids)) (Leaves I Given m)
        (do
          next ← ask (Cmd.select_children u (id ∷ ids))
          next_level (delete_asset_group_job fuel u) u next)
        (λ t' n' i'.
          call-holds (Leaves I Given m) fails (Cmd.select_children u (id ∷ ids))
            (next_level (delete_asset_group_job fuel u) u) (at t' n')
            (call-holds (Leaves I Given m) fails (Cmd.exec (Stmt.enqueue u [])) (λ _. ret (ok tt))
              (at t' (suc n')) i' (again t' i'))
            (job-Leaves fuel (suc k) m (suc n') (children u (id ∷ ids) t'.groups) t'
              (deeper k (id ∷ ids) t' i' l) (omega arith) i'))
        t n i

-- Between transactions.
abbrev known : Tables → ℕ → World
known t n = record { tables = t; saved = none; tick = n }

-- Deletions and tasks remove nothing from a scheduler.
same_removals :
    (r : List (String × List String)) (u : String) (ids : List ℕ) (s : Stmt)
    → InJob u ids s
    → (t : Tables) → t.removals ≡ r
    → (effect s t).removals ≡ r
unfolding effect
same_removals r u ids _ InJob.areas t e = e
same_removals r u ids _ InJob.assets t e = e
same_removals r u ids _ InJob.groups t e = e
same_removals r u ids _ InJob.again t e = e

-- The job never tells a scheduler to remove a file, whatever fails and whatever the fuel: it looks
-- for the files to remove when their rows are already deleted.
pub delete_asset_group_job_removes_nothing :
    (fails : ℕ → Bool) (fuel : ℕ) (u : String) (ids : List ℕ) (t : Tables) (n : ℕ)
    → (run fails (delete_asset_group_job fuel u ids) (known t n)).1.tables.removals ≡ t.removals
unfolding effect
delete_asset_group_job_removes_nothing fails fuel u ids t n =
    leaves (λ t'. t'.removals ≡ t.removals) (λ _. Unit) (fuel + 0) _
      (job-Leaves fails (λ t'. t'.removals ≡ t.removals) u (λ _ _. Unit) (λ _. Unit)
        (same_removals t.removals u) (λ t' e. e) (λ k ids t' e l. tt) (λ k id ids l. tt) fuel 0
        (fuel + 0) n ids t tt refl refl)

-- Rows of a table, and no others.
abbrev Among : Tables → Tables → Type 0
Among t t' = All (Found t.groups) t'.groups × All (Counted t.next_id) t'.groups

All-keep : {A : Type 0} (P : A → Type 0) (p : A → Bool) (l : List A) → All P l → All P (keep p l)
All-keep P p [] a = tt
All-keep P p (x ∷ l) (h, a) = elim (Bool-cases (p x)) [
  | inl b ↦ rw b (h, All-keep P p l a)
  | inr b ↦ rw b (All-keep P p l a)
]

Among-kept :
    (t : Tables) (u : String) (ids : List ℕ) (s : Stmt)
    → InJob u ids s
    → (t' : Tables) → Among t t'
    → Among t (effect s t')
unfolding effect
Among-kept t u ids _ InJob.areas t' e = e
Among-kept t u ids _ InJob.assets t' e = e
Among-kept t u ids _ InJob.groups t' (f, c) =
    (All-keep (Found t.groups) _ t'.groups f, All-keep (Counted t.next_id) _ t'.groups c)
Among-kept t u ids _ InJob.again t' e = e

-- On a table where no folder is inside itself the job returns without an error, whatever fails: its
-- loop is not given up, if it may run more rounds than there are folders.
pub delete_asset_group_job_returns :
    (fails : ℕ → Bool) (fuel : ℕ) (u : String) (ids : List ℕ) (t : Tables) (n : ℕ)
    → IsForest t
    → length t.groups < fuel
    → (run fails (delete_asset_group_job fuel u ids) (known t n)).0 ≡ returned (ok tt)
unfolding effect
delete_asset_group_job_returns fails fuel u ids t n h l = returns _ (
    job-Leaves fails (Among t) u (λ k ids. All (Deep t.groups h.rooted k) ids)
      (λ m. m ≤ length t.groups) (Among-kept t u) (λ t' e. e)
      (λ k ids t' e l. children-Deep t.groups h.rooted t.next_id k u ids t'.groups e.0 e.1 l)
      (λ k id ids l. omega (arith, depth-le-length t.groups h.rooted (h.rooted id))) fuel 0
      (fuel + 0) n ids t (shallow ids) refl (Found-All t.groups h.keyed, h.counted))
  where
    shallow : (ids : List ℕ) → All (Deep t.groups h.rooted 0) ids
    shallow [] = tt
    shallow (id ∷ ids) = (omega arith, shallow ids)

    returns :
        (r : Outcome (Result (Unit {0})) × World)
        → Leaves (Among t) (λ m. m ≤ length t.groups) (fuel + 0) r
        → r.0 ≡ returned (ok tt)
    returns (returned (ok tt), w) h = refl
    returns (returned (refuse e), w) h = absurd h
    returns (returned out_of_fuel, w) (h, b) = absurd (omega arith)
    returns (crashed, w) h = absurd h

-- Only the n-th call fails.
abbrev pub only_fails : ℕ → ℕ → Bool
only_fails n k = k == n

job-nil :
    (fails : ℕ → Bool) (fuel : ℕ) (u : String) (w : World)
    → run fails (delete_asset_group_job fuel u []) w ≡ (returned (ok tt), w)
unfolding Program.run delete_asset_group_job
job-nil fails zero u w = refl
job-nil fails (suc fuel) u w = refl

-- Where only the read of the next level fails, the job enqueues a task that names no folder, and no
-- run of that task changes anything: the folders below are never emptied.
pub delete_asset_group_job_loses_levels :
    (fuel : ℕ) (u : String) (id : ℕ) (ids : List ℕ) (t : Tables)
    → ((run
          (only_fails 7)
          (delete_asset_group_job (suc fuel) u (id ∷ ids))
          (known t 0)).1.tables.tasks
        ≡ t.tasks ++ (record { user_id = u; group_id = [] } ∷ []))
      × ((fails : ℕ → Bool) (fuel' : ℕ) (w : World)
          → run fails (delete_asset_group_job fuel' u []) w ≡ (returned (ok tt), w))
unfolding Program.run delete_asset_group_job next_level delete_asset_by_group
    delete_user_group_asset handle succeed fail failed answer refused effect for_each
delete_asset_group_job_loses_levels fuel u id ids t =
    (rw nothing_found refl, λ fails fuel' w. job-nil fails fuel' u w)
  where
    nothing_found :
        only_assets u
          (id ∷ ids)
          (keep (λ a. not (in_groups u (id ∷ ids) a)) t.assets)
          (effect (Stmt.delete_areas_in u (id ∷ ids)) t).areas
        ≡ []
    nothing_found = only_assets-nil u (id ∷ ids) _ _ (keep-not (in_groups u (id ∷ ids)) t.assets)
