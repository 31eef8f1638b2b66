-- ===== src/Assets/Folders/Loops.antt =====
-- Moving and removing a folder: the requests that loop.
use titan_explorer.Base.{
  ℕ, suc, ◌+◌, ◌<◌, ◌≡◌, ◌≢◌, ◌⊎◌, refl, sym, subst, String, Bool, true, false, not, none, List, [],
  ◌∷◌, length, arith, if◌then◌else◌, ◌==◌, ==_iff, if-holds, inl, inr,
}
use titan_explorer.Base.Program
use titan_explorer.Base.Program.{
  Outcome, returned, crashed, ret, call, ask, ◌>>=◌, ◌>>◌, continue, run->>=,
}
use titan_explorer.Assets.Types.{Tables}
use titan_explorer.Assets.Prog.{Stmt, Cmd, Prog}
use titan_explorer.Assets.Rows.{own_group, in_groups, sum_of}
use titan_explorer.Assets.Store.{World, succeed, fail, failed, answer, effect, handle, run}
use titan_explorer.Assets.Files.Steps.{call-holds}
use titan_explorer.Assets.Folders.{
  Result, ok, refuse, out_of_fuel, GroupError, or_db_error, if_ok, exec_last, prevent_loops,
  move_asset_group, collect, commit_last, delete_outer, delete_asset_group_and_update_size,
}
use titan_explorer.Assets.Folders.Shape.{IsForest, keep-IsForest}
use titan_explorer.Assets.Folders.Forest.{at_root}
use titan_explorer.Assets.Folders.Move.{Clear, clear-Rooted, move-IsForest}
use titan_explorer.Assets.Folders.Climb.{Climbed, prevent_loops-Climbed}
use titan_explorer.Assets.Folders.Depth.{depth-le-length}
use titan_explorer.Assets.Folders.Levels.{Collected, collect-Collected}
use titan_explorer.Assets.Folders.Steps.{exec_last-Kept, begin-Kept, commit-Kept, in_tx-Kept}
use titan_explorer.Assets.Folders.Requests.{Keeps, if_exists-Kept}

-- A world is its tables, the open transaction and the count of calls.
abbrev known : Tables → ℕ → World
known t n = record { tables = t; saved = none; tick = n }

world_eq : (t : Tables) (w : World) → w.tables ≡ t → w.saved ≡ none → w ≡ known t w.tick
world_eq t w e f = ground (arith, e, f)

module _ (fails : ℕ → Bool) (t : Tables) (h : IsForest t) (fuel : ℕ) where
  abbrev Good : {A : Type 0} → Outcome (Result A) × World → Type 0
  Good = Keeps fails t h fuel

  module _ (u : String) (moved target : ℕ) (n : ℕ) where
    -- The update that ends a move, from where the way up from the target is free.
    set_parent-Kept :
        (k : ℕ)
        → moved ≢ target
        → target < t.next_id
        → (target ≡ 0) ⊎ Clear t.groups moved target
        → Good (run fails (exec_last (Stmt.set_parent u moved target)) (known t k))
    unfolding succeed fail effect
    set_parent-Kept k n l (inl z) =
        exec_last-Kept fails (length t.groups) fuel (Stmt.set_parent u moved target) t k h refl refl
          (move-IsForest u moved target t h (at_root z) l)
    set_parent-Kept k n l (inr c) =
        exec_last-Kept fails (length t.groups) fuel (Stmt.set_parent u moved target) t k h refl refl
          (move-IsForest u moved target t h (clear-Rooted u moved target t h (λ e. n (sym e)) c) l)

    after_climb :
        (r : Outcome (Result (Unit {0})) × World)
        → moved ≢ target
        → target < t.next_id
        → Climbed fails t moved fuel (h.rooted target) r
        → Good (
            continue
              (handle fails)
              (λ free. if_ok free λ _. exec_last (Stmt.set_parent u moved target))
              r)
    unfolding Program.run
    after_climb (returned (ok _), w) d l (c, e, f) =
        subst (λ v. Good (run fails (exec_last (Stmt.set_parent u moved target)) v))
          (sym (world_eq t w e f)) (set_parent-Kept w.tick d l (inr c))
    after_climb (returned (refuse x), w) d l (e, f) = (subst IsForest (sym e) h, f)
    after_climb (returned out_of_fuel, w) d l (b, e, f) = (
      subst IsForest (sym e) h,
      f,
      omega (arith, depth-le-length t.groups h.rooted (h.rooted target)),
    )
    after_climb (crashed, w) d l b = absurd b

    pub move_asset_group-Kept : Good (run fails (move_asset_group fuel u moved target) (known t n))
    unfolding move_asset_group Program.run
    move_asset_group-Kept =
        branch (moved == 0) (ret (refuse GroupError.root_group_cannot_moved)) _ n (λ _. (h, refl))
          (λ _.
            branch (moved == target) (ret (refuse GroupError.groups_are_same)) _ n (λ _. (h, refl))
              (λ d.
                branch (target == 0) (exec_last (Stmt.set_parent u moved target)) _ n
                  (λ z.
                    set_parent-Kept n (ground (arith, d)) (ground (arith, z, h.first))
                      (inl ((==_iff target 0).0 z)))
                  (λ z.
                    if_exists-Kept fails t h fuel u target n climb_then
                      (λ l. climbs (ground (arith, d)) l (ground (arith, z))))))
      where
        branch :
            (b : Bool) (x y : Prog (Result (Unit {0}))) (k : ℕ)
            → (b ≡ true → Good (run fails x (known t k)))
            → (b ≡ false → Good (run fails y (known t k)))
            → Good (run fails (if b then x else y) (known t k))
        branch b x y k p q =
            if-holds (λ (r : Prog (Result (Unit {0}))). Good (run fails r (known t k))) b x y p q

        climb_then : Prog (Result (Unit {0}))
        climb_then = do
          free ← prevent_loops fuel moved target
          if_ok free λ _. exec_last (Stmt.set_parent u moved target)

        climbs :
            moved ≢ target
            → target < t.next_id
            → 0 < target
            → Good (run fails climb_then (known t (suc n)))
        climbs d l p =
            rw
              (run->>= (handle fails) (prevent_loops fuel moved target)
                (λ free. if_ok free λ _. exec_last (Stmt.set_parent u moved target))
                (known t (suc n)))
              (after_climb (run fails (prevent_loops fuel moved target) (known t (suc n))) d l
                (prevent_loops-Climbed fails t moved fuel (suc n) (h.rooted target) p))

  module _ (u : String) (gid : ℕ) where
    delete_outer-Kept : (tsize k : ℕ) → Good (run fails (delete_outer u gid tsize) (known t k))
    unfolding delete_outer succeed fail effect
    delete_outer-Kept tsize k =
        let h1 = keep-IsForest (λ g. not (own_group u gid g)) t h in
        begin-Kept fails (length t.groups) fuel _ t k h (
          in_tx-Kept fails (length t.groups) fuel (Stmt.delete_group u gid) _ t t _ (suc k) h refl
            refl
            (in_tx-Kept fails (length t.groups) fuel (Stmt.sub_used u tsize) commit_last t _ _
              (suc (suc k)) h refl refl
              (commit-Kept fails (length t.groups) fuel t _ (suc (suc (suc k))) h (record {
                rooted = h1.rooted;
                keyed = h1.keyed;
                counted = h1.counted;
                first = h1.first;
              }))))

    sizes_then : List ℕ → Prog (Result (Unit {0}))
    sizes_then gids = do
      tsize ← ask (Cmd.sum_sizes u gids)
      or_db_error tsize λ tsize. delete_outer u gid tsize

    after_collect :
        (r : Outcome (Result (List ℕ)) × World)
        → Collected fails t h u (fuel + 0) r
        → Good (continue (handle fails) (λ gids. if_ok gids sizes_then) r)
    unfolding Program.run sizes_then succeed fail failed answer
    after_collect (returned (ok gids), w) (e, f) =
        subst (λ v. Good (run fails (sizes_then gids) v)) (sym (world_eq t w e f))
          (call-holds (Good {A = Unit {0}}) fails (Cmd.sum_sizes u gids)
            (λ tsize. or_db_error tsize λ tsize. delete_outer u gid tsize) (known t w.tick)
            (h, refl) (delete_outer-Kept (sum_of (in_groups u gids) t.assets) (suc w.tick)))
    after_collect (returned (refuse x), w) (e, f) = (subst IsForest (sym e) h, f)
    after_collect (returned out_of_fuel, w) (b, e, f) = (subst IsForest (sym e) h, f, omega arith)
    after_collect (crashed, w) b = absurd b

    pub delete_asset_group_and_update_size-Kept :
        (n : ℕ) → Good (run fails (delete_asset_group_and_update_size fuel u gid) (known t n))
    unfolding delete_asset_group_and_update_size sizes_then
    delete_asset_group_and_update_size-Kept n =
        rw
          (run->>= (handle fails) (collect fuel u (gid ∷ []) (gid ∷ []))
            (λ gids. if_ok gids sizes_then) (known t n))
          (after_collect (run fails (collect fuel u (gid ∷ []) (gid ∷ [])) (known t n)) (
            collect-Collected fails t h u fuel 0 (fuel + 0) n (gid ∷ []) (gid ∷ [])
              (omega arith, tt) refl))
