-- ===== src/Assets/Folders/Climb.antt =====
-- The loop that climbs from the target of a move.
use titan_explorer.Base.{
  ℕ, zero, suc, ◌≤◌, ◌≡◌, ◌≢◌, refl, Bool, true, false, none, some, ◌<◌, arith, ◌==◌, ==_iff,
}
use titan_explorer.Base.Program
use titan_explorer.Base.Program.{Outcome, returned, crashed, ret, call, ask, ◌>>=◌}
use titan_explorer.Base.Sql.{Scan}
use titan_explorer.Assets.Types.{AssetGroup, Tables}
use titan_explorer.Assets.Prog.{Cmd, Prog}
use titan_explorer.Assets.Rows.{find_group}
use titan_explorer.Assets.Store.{World, succeed, fail, failed, answer, run}
use titan_explorer.Assets.Folders.{
  Result, GroupError, ok, refuse, out_of_fuel, or_failed, prevent_loops,
}
use titan_explorer.Assets.Files.Steps.{call-holds}
use titan_explorer.Assets.Folders.Forest.{Rooted, at_root, at_missing, above}
use titan_explorer.Assets.Folders.Depth.{depth}
use titan_explorer.Assets.Folders.Move.{Clear, reached, climbed}

module _ (fails : ℕ → Bool) (t : Tables) (group_id : ℕ) where
  -- What the loop leaves: the tables as they were, and what its result says.
  abbrev pub Climbed :
      ℕ → {id : ℕ} → Rooted t.groups id → Outcome (Result (Unit {0})) × World → Type 0
  Climbed fuel {id} r (returned (ok _), w) =
      Clear t.groups group_id id × (w.tables ≡ t) × (w.saved ≡ none)
  Climbed fuel r (returned (refuse e), w) = (w.tables ≡ t) × (w.saved ≡ none)
  Climbed fuel r (returned out_of_fuel, w) = (fuel ≤ depth r) × (w.tables ≡ t) × (w.saved ≡ none)
  Climbed fuel r (crashed, w) = ⊥

  abbrev at : ℕ → World
  at n = record { tables = t; saved = none; tick = n }

  -- The rest of a round, by whether the parent is the folder that moves, or the root.
  abbrev onwards : ℕ → ℕ → Bool → Bool → Prog (Result (Unit {0}))
  onwards fuel gid b c = elim b [
    | true ↦ ret (refuse GroupError.cannot_move_to_subgroup)
    | false ↦ elim c [ true ↦ ret (ok tt) | false ↦ prevent_loops fuel group_id gid ]
  ]

  abbrev round : ℕ → Scan ℕ → Prog (Result (Unit {0}))
  round fuel parent = or_failed parent λ gid. onwards fuel gid (gid == group_id) (gid == 0)

  -- One more folder on the way.
  Climbed-above :
      (fuel : ℕ) {id : ℕ} (g : AssetGroup) (p : 0 < id) (e : find_group id t.groups ≡ some g)
      (up : Rooted t.groups g.parent) (r : Outcome (Result (Unit {0})) × World)
      → g.parent ≢ group_id
      → Climbed fuel up r
      → Climbed (suc fuel) (above g p e up) r
  unfolding depth
  Climbed-above fuel g p e up (returned (ok _), w) n (c, h, h') = (climbed g e n c, h, h')
  Climbed-above fuel g p e up (returned (refuse x), w) n h = h
  Climbed-above fuel g p e up (returned out_of_fuel, w) n (l, h, h') = (omega arith, h, h')
  Climbed-above fuel g p e up (crashed, w) n h = h

  onwards-Climbed :
      (fuel n : ℕ) {id : ℕ} (g : AssetGroup) (p : 0 < id) (e : find_group id t.groups ≡ some g)
      (up : Rooted t.groups g.parent)
      → (0 < g.parent → Climbed fuel up (run fails (prevent_loops fuel group_id g.parent) (at n)))
      → (b c : Bool) → (g.parent == group_id) ≡ b
      → (g.parent == 0) ≡ c
      → Climbed (suc fuel) (above g p e up) (run fails (onwards fuel g.parent b c) (at n))
  unfolding Program.run
  onwards-Climbed fuel n g p e up rest true c eb ec = (refl, refl)
  onwards-Climbed fuel n g p e up rest false true eb ec =
      (reached g e ((==_iff g.parent 0).0 ec), refl, refl)
  onwards-Climbed fuel n g p e up rest false false eb ec =
      Climbed-above fuel g p e up (run fails (prevent_loops fuel group_id g.parent) (at n))
        (ground (arith, eb)) (rest (ground (arith, ec)))

  pub prevent_loops-Climbed :
      (fuel : ℕ) (n : ℕ) {id : ℕ} (r : Rooted t.groups id)
      → 0 < id
      → Climbed fuel r (run fails (prevent_loops fuel group_id id) (at n))
  unfolding Program.run prevent_loops succeed fail failed answer depth
  prevent_loops-Climbed zero n r p = (omega arith, refl, refl)
  prevent_loops-Climbed (suc fuel) n (at_root z) p = absurd (omega arith)
  prevent_loops-Climbed (suc fuel) n (at_missing {id} q e) p =
      call-holds (Climbed (suc fuel) (at_missing {id = id} q e)) fails (Cmd.select_parent id)
        (round fuel) (at n) (refl, refl) (rw e (refl, refl))
  prevent_loops-Climbed (suc fuel) n (above {id} g q e up) p =
      call-holds (Climbed (suc fuel) (above {id = id} g q e up)) fails (Cmd.select_parent id)
        (round fuel) (at n) (refl, refl)
        (rw e (
          onwards-Climbed fuel (suc n) g q e up (prevent_loops-Climbed fuel (suc n) up)
            (g.parent == group_id) (g.parent == 0) refl refl))
