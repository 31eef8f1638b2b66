-- ===== src/Assets/Folders/Requests.antt =====
-- Requests on folders that do not loop.
use titan_explorer.Base.{
  ℕ, suc, ◌<◌, ◌≡◌, refl, String, Bool, not, ◌&&◌, none, List, [], ◌∷◌, length, arith,
  if◌then◌else◌, leb, ◌==◌, str_eq, Bool-cases, inl, inr, All, if-holds,
}
use titan_explorer.Base.Program
use titan_explorer.Base.Program.{
  Outcome, returned, crashed, ret, call, ask, ◌>>=◌, ◌>>◌, continue, run->>=,
}
use titan_explorer.Base.Sql.{Scan, scan_error, no_rows, scanned}
use titan_explorer.Assets.Types.{AssetGroup, Tables}
use titan_explorer.Assets.Prog.{Stmt, Cmd, Prog}
use titan_explorer.Assets.Rows.{find_own_group, own_group, count_of}
use titan_explorer.Assets.Store.{World, succeed, fail, failed, answer, effect, run}
use titan_explorer.Assets.Files.Steps.{call-holds}
use titan_explorer.Assets.Folders.{
  Result, ok, refuse, GroupError, or_failed, or_db_error, if_exists, create_within_limit,
  create_asset_group, delete_empty_group, delete_asset_group, commit_last,
}
use titan_explorer.Assets.Folders.Shape.{IsForest, Counted, keep-IsForest, inserted-IsForest}
use titan_explorer.Assets.Folders.Steps.{Kept, begin-Kept, commit-Kept, in_tx-Kept}

-- An own folder is one that the table has counted.
find_own_group-lt :
    (u : String) (id id' n : ℕ) (t : List AssetGroup)
    → All (Counted n) t
    → find_own_group u id t ≡ scanned id'
    → (id < n) × (id' ≡ id)
unfolding find_own_group
find_own_group-lt u id id' n [] a e = ground (arith, e)
find_own_group-lt u id id' n (g ∷ t) (c, a) e = elim (Bool-cases (own_group u id g)) [
  | inl b ↦ ground (arith, e, b, c)
  | inr b ↦ find_own_group-lt u id id' n t a (ground (arith, e, b))
]

module _ (fails : ℕ → Bool) (t : Tables) (h : IsForest t) (fuel : ℕ) where
  abbrev pub Keeps : {A : Type 0} → Outcome (Result A) × World → Type 0
  Keeps = Kept fails (length t.groups) fuel

  abbrev pub start : ℕ → World
  start n = record { tables = t; saved = none; tick = n }

  pub if_exists-Kept :
      {B : Type 0} (u : String) (gid n : ℕ) (rest : Prog (Result B))
      → (gid < t.next_id → Keeps (run fails rest (start (suc n))))
      → Keeps (run fails (if_exists u gid rest) (start n))
  unfolding if_exists Program.run succeed fail failed answer
  if_exists-Kept {B} u gid n rest k =
      call-holds (Keeps {A = B}) fails (Cmd.select_group u gid)
        (λ id.
          or_failed id λ id. if leb 1 id then rest else ret (refuse GroupError.group_not_exist))
        (start n) (h, refl) (found (find_own_group u gid t.groups) refl)
    where
      existing :
          (id : ℕ)
          → gid < t.next_id
          → Keeps (
              run fails
                (if leb 1 id then rest else ret (refuse GroupError.group_not_exist))
                (start (suc n)))
      existing id l =
          if-holds (λ (p : Prog (Result B)). Keeps (run fails p (start (suc n)))) (leb 1 id) rest
            (ret (refuse GroupError.group_not_exist)) (λ _. k l) (λ _. (h, refl))

      found :
          (r : Scan ℕ)
          → find_own_group u gid t.groups ≡ r
          → Keeps (
              run fails
                (or_failed r
                  λ id. if leb 1 id then rest else ret (refuse GroupError.group_not_exist))
                (start (suc n)))
      found scan_error e = (h, refl)
      found no_rows e = (h, refl)
      found (scanned id) e =
          existing id (find_own_group-lt u gid id t.next_id t.groups h.counted e).0

  create_within_limit-Kept :
      (u name : String) (p n : ℕ)
      → p < t.next_id
      → Keeps (run fails (create_within_limit u name p) (start n))
  unfolding create_within_limit Program.run succeed fail failed answer
  create_within_limit-Kept u name p n l =
      call-holds (Keeps {A = ℕ}) fails (Cmd.count_groups u)
        (λ count.
          or_db_error count
            λ n. if leb 20 n then ret (refuse GroupError.group_limit) else insert_then)
        (start n) (h, refl)
        (if-holds (λ (q : Prog (Result ℕ)). Keeps (run fails q (start (suc n))))
          (leb 20 (count_of (λ g. str_eq g.user_id u) t.groups))
          (ret (refuse GroupError.group_limit)) insert_then (λ _. (h, refl))
          (λ _.
            call-holds (Keeps {A = ℕ}) fails (Cmd.insert_group u name p)
              (λ id. or_db_error id λ id. ret (ok id)) (start (suc n)) (h, refl)
              (inserted-IsForest u name p t h l, refl)))
    where
      insert_then : Prog (Result ℕ)
      insert_then = do id ← ask (Cmd.insert_group u name p); or_db_error id λ id. ret (ok id)

  pub create_asset_group-Kept :
      (u name : String) (p n : ℕ) → Keeps (run fails (create_asset_group u name p) (start n))
  unfolding create_asset_group
  create_asset_group-Kept u name p n =
      if-holds (λ (q : Prog (Result ℕ)). Keeps (run fails q (start n))) (p == 0) _ _
        (λ e. create_within_limit-Kept u name p n (ground (arith, e, h.first)))
        (λ _.
          if_exists-Kept u p n (create_within_limit u name p)
            (create_within_limit-Kept u name p (suc n)))

  pub delete_empty_group-Kept :
      (u : String) (gid n : ℕ) → Keeps (run fails (delete_empty_group u gid) (start n))
  unfolding delete_empty_group succeed fail effect
  delete_empty_group-Kept u gid n =
      let h1 = keep-IsForest (λ g. not (str_eq g.user_id u && g.parent == gid)) t h in
      let h2 = keep-IsForest (λ g. not (own_group u gid g)) _ h1 in
      begin-Kept fails (length t.groups) fuel _ t n h (
        in_tx-Kept fails (length t.groups) fuel (Stmt.delete_children u gid) _ t t _ (suc n) h refl
          refl
          (in_tx-Kept fails (length t.groups) fuel (Stmt.delete_group u gid) commit_last t _ _
            (suc (suc n)) h refl refl
            (commit-Kept fails (length t.groups) fuel t _ (suc (suc (suc n))) h h2)))

  pub delete_asset_group-Kept :
      (u : String) (gid n : ℕ) → Keeps (run fails (delete_asset_group u gid) (start n))
  unfolding delete_asset_group Program.run succeed fail failed answer
  delete_asset_group-Kept u gid n =
      call-holds (Keeps {A = Unit {0}}) fails (Cmd.count_assets u gid)
        (λ files. or_db_error files λ n.
          if leb 1 n
          then ret (refuse GroupError.group_not_empty_cannot_be_delete)
          else folders_then)
        (start n) (h, refl)
        (if_empty _ (suc n) folders_then (
          call-holds (Keeps {A = Unit {0}}) fails (Cmd.count_children u gid)
            (λ folders. or_db_error folders λ n.
              if leb 1 n
              then ret (refuse GroupError.group_not_empty_cannot_be_delete)
              else delete_empty_group u gid)
            (start (suc n)) (h, refl)
            (if_empty _ (suc (suc n)) (delete_empty_group u gid)
              (delete_empty_group-Kept u gid (suc (suc n))))))
    where
      folders_then : Prog (Result (Unit {0}))
      folders_then = do
        folders ← ask (Cmd.count_children u gid)
        or_db_error folders λ n.
            if leb 1 n
            then ret (refuse GroupError.group_not_empty_cannot_be_delete)
            else delete_empty_group u gid

      if_empty :
          (k n : ℕ) (rest : Prog (Result (Unit {0})))
          → Keeps (run fails rest (start n))
          → Keeps (
              run fails
                (if leb 1 k then ret (refuse GroupError.group_not_empty_cannot_be_delete) else rest)
                (start n))
      if_empty k n rest q =
          if-holds (λ (p : Prog (Result (Unit {0}))). Keeps (run fails p (start n))) (leb 1 k)
            (ret (refuse GroupError.group_not_empty_cannot_be_delete)) rest (λ _. (h, refl))
            (λ _. q)
