-- ===== src/Assets/Folders/Race.antt =====
-- Two moves at once: each check passes before the other's update.
use titan_explorer.Base.{
  ℕ, zero, suc, ◌<◌, ◌≡◌, ◌≢◌, refl, String, Bool, false, none, some, List, [], ◌∷◌, arith, eq_iff,
}
use titan_explorer.Base.Program
use titan_explorer.Base.Program.{Outcome, returned, crashed, interleave, ret, run->>=, continue}
use titan_explorer.Base.Sql.{scanned}
use titan_explorer.Assets.Types.{AssetGroup, Tables}
use titan_explorer.Assets.Prog.{Stmt}
use titan_explorer.Assets.Rows.{find_group, find_own_group, own_group, update_groups}
use titan_explorer.Assets.Store.{World, handle, answer, succeed, effect, run}
use titan_explorer.Assets.Folders.{out_of_fuel, if_ok, exec_last, prevent_loops, move_asset_group}
use titan_explorer.Assets.Folders.Forest.{find_group-update}

abbrev pub none_fails : ℕ → Bool
none_fails n = false

-- Where two folders lie inside one another, the climb from either goes round.
module _ (t : Tables) (a b c : ℕ) (ga gb : AssetGroup) (c_a : c ≢ a) (c_b : c ≢ b) (a_pos : 0 < a)
    (b_pos : 0 < b) (fa : find_group a t.groups ≡ some ga) (fb : find_group b t.groups ≡ some gb)
    (pa : ga.parent ≡ b) (pb : gb.parent ≡ a) where
  round_and_round :
      (fuel n : ℕ)
      → ((run none_fails (prevent_loops fuel c a) (record { tables = t; saved = none; tick = n })).0
          ≡ returned out_of_fuel)
        × ((run none_fails
              (prevent_loops fuel c b)
              (record { tables = t; saved = none; tick = n })).0
            ≡ returned out_of_fuel)
  unfolding Program.run handle prevent_loops answer succeed
  round_and_round zero n = (refl, refl)
  round_and_round (suc fuel) n =
      let (ra, rb) = round_and_round fuel (suc n) in
      (ground (arith, fa, pa, rb, c_b, b_pos), ground (arith, fb, pb, ra, c_a, a_pos))

  -- A move into the first of them then.
  endless :
      (fuel n : ℕ) (u : String)
      → 0 < c
      → find_own_group u a t.groups ≡ scanned a
      → (run none_fails
          (move_asset_group fuel u c a)
          (record { tables = t; saved = none; tick = n })).0
        ≡ returned out_of_fuel
  unfolding Program.run handle move_asset_group answer succeed
  endless fuel n u c_pos own = ground (
    arith,
    own,
    c_pos,
    c_a,
    a_pos,
    run->>= (handle none_fails) (prevent_loops fuel c a)
        (λ free. if_ok free λ _. exec_last (Stmt.set_parent u c a))
        (record { tables = t; saved = none; tick = suc n }),
    (round_and_round fuel (suc n)).0,
  )

-- A change of the parent leaves the own folders as they are.
find_own_group-move :
    (u v : String) (id j p : ℕ) (t : List AssetGroup)
    → find_own_group u id (update_groups (own_group v j) (λ g. record g { parent = p }) t)
      ≡ find_own_group u id t
unfolding find_own_group update_groups
find_own_group-move u v id j p [] = refl
find_own_group-move u v id j p (g ∷ t) = ground (arith, find_own_group-move u v id j p t)

-- Two folders of a user in the root folder, on tables where no transaction is open.
pub record AreRoots (u : String) (a b : ℕ) (w : World) : Type 0 where
  pub differ : a ≢ b
  pub a_pos : 0 < a
  pub b_pos : 0 < b
  pub own_a : find_own_group u a w.tables.groups ≡ scanned a
  pub own_b : find_own_group u b w.tables.groups ≡ scanned b
  pub row_a : AssetGroup
  pub row_b : AssetGroup
  pub found_a : find_group a w.tables.groups ≡ some row_a
  pub found_b : find_group b w.tables.groups ≡ some row_b
  pub user_a : row_a.user_id ≡ u
  pub user_b : row_b.user_id ≡ u
  pub id_a : row_a.id ≡ a
  pub id_b : row_b.id ≡ b
  pub parent_a : row_a.parent ≡ 0
  pub parent_b : row_b.parent ≡ 0
  pub closed : w.saved ≡ none

-- `a` is moved into `b` and `b` into `a`, and each is checked before the other is written.
unfoldable pub cross : String → ℕ → ℕ → ℕ → World → World
unfolding move_asset_group handle interleave
cross u a b fuel w =
    (interleave (handle none_fails) (0 ∷ 0 ∷ 1 ∷ 1 ∷ 0 ∷ 1 ∷ [])
      (move_asset_group fuel u a b ∷ move_asset_group fuel u b a ∷ []) w).1

module _ (u : String) (a b fuel : ℕ) (w : World) (r : AreRoots u a b w) where
  -- Both updates are made.
  abbrev crossed : Tables
  crossed = effect (Stmt.set_parent u b a) (effect (Stmt.set_parent u a b) w.tables)

  cross_lem :
      cross u a b (suc fuel) w
      ≡ record { tables = crossed; saved = none; tick = suc (suc (suc (suc (suc (suc w.tick))))) }
  unfolding cross Program.interleave Program.advance move_asset_group handle answer succeed
  cross_lem = ground (
    arith, r.own_a, r.own_b, r.found_a, r.found_b, r.parent_a, r.parent_b, r.differ, r.a_pos,
    r.b_pos, r.closed,
  )

  abbrev row_a' : AssetGroup
  row_a' = record r.row_a { parent = b }

  abbrev row_b' : AssetGroup
  row_b' = record r.row_b { parent = a }

  abbrev once : List AssetGroup
  once = update_groups (own_group u a) (λ g. record g { parent = b }) w.tables.groups

  found_once : (find_group a once ≡ some row_a') × (find_group b once ≡ some r.row_b)
  found_once =
      let up = λ (id : ℕ).
        find_group-update (own_group u a) (λ g. record g { parent = b }) (λ g. refl) id
          w.tables.groups in
      (
        ground (arith, r.found_a, r.user_a, r.id_a, up a, eq_iff r.row_a.user_id u),
        ground (arith, r.found_b, r.id_b, r.differ, up b),
      )

  found_twice :
      (find_group a crossed.groups ≡ some row_a') × (find_group b crossed.groups ≡ some row_b')
  unfolding effect
  found_twice =
      let up = λ (id : ℕ).
        find_group-update (own_group u b) (λ g. record g { parent = a }) (λ g. refl) id once in
      (
        ground (arith, found_once, r.id_a, r.differ, up a),
        ground (arith, found_once, r.user_b, r.id_b, up b, eq_iff r.row_b.user_id u),
      )

  -- Where a user moves two folders of the root folder into one another at once, each checked before
  -- the other is written, a move of any other folder into the first of them never returns after
  -- that: whatever the fuel, it runs out, although no statement fails.
  pub moves_at_once_hang :
      (c later : ℕ)
      → c ≢ a
      → c ≢ b
      → 0 < c
      → (run none_fails (move_asset_group later u c a) (cross u a b (suc fuel) w)).0
        ≡ returned out_of_fuel
  unfolding effect
  moves_at_once_hang c later c_a c_b c_pos = rw cross_lem (
      endless crossed a b c row_a' row_b' c_a c_b r.a_pos r.b_pos found_twice.0 found_twice.1 refl
        refl later _ u c_pos own)
    where
      own : find_own_group u a crossed.groups ≡ scanned a
      own =
          rw (find_own_group-move u u a b a once, find_own_group-move u u a a b w.tables.groups)
            r.own_a
