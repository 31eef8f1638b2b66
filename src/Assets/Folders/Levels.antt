-- ===== src/Assets/Folders/Levels.antt =====
-- The loop that descends into a folder, level by level: each level lies deeper.
use titan_explorer.Base.{
  ℕ, zero, suc, ◌+◌, ◌≤◌, ◌<◌, ◌≡◌, refl, String, Bool, true, none, some, List, [], ◌∷◌, ◌++◌, All,
  length, arith, ◌==◌, ==_iff, subst, Bool-cases, inl, inr,
}
use titan_explorer.Base.Program
use titan_explorer.Base.Program.{Outcome, returned, crashed, ret, call, ask, ◌>>=◌}
use titan_explorer.Assets.Types.{AssetGroup, Tables}
use titan_explorer.Assets.Prog.{Cmd}
use titan_explorer.Assets.Rows.{find_group, children, child_of, is_in}
use titan_explorer.Assets.Store.{World, succeed, fail, failed, answer, run}
use titan_explorer.Assets.Folders.{Result, out_of_fuel, or_db_error, collect}
use titan_explorer.Assets.Files.Steps.{call-holds}
use titan_explorer.Assets.Folders.Forest.{Rooted, above, IsKeyed}
use titan_explorer.Assets.Folders.Depth.{depth, depth_eq, depth-le-length}
use titan_explorer.Assets.Folders.Shape.{IsForest, Counted, All-map}

-- In a table with keys each row is found by its id.
abbrev pub Found : List AssetGroup → AssetGroup → Type 0
Found t g = find_group g.id t ≡ some g

pub Found-All : (t : List AssetGroup) → IsKeyed t → All (Found t) t
unfolding find_group
Found-All [] k = tt
Found-All (g ∷ t) (e, k) = (
  ground arith,
  All-map (Found t) (Found (g ∷ t)) t (λ x f. ground (arith, e, f)) (Found-All t k),
)

module _ (t : List AssetGroup) (rooted : (id : ℕ) → Rooted t id) where
  -- At least `k` folders lie on the way up from it.
  abbrev pub Deep : ℕ → ℕ → Type 0
  Deep k id = k ≤ depth (rooted id)

  Deep-of_in : (k id : ℕ) (ids : List ℕ) → All (Deep k) ids → is_in id ids ≡ true → Deep k id
  unfolding depth
  Deep-of_in k id [] a e = absurd (ground (arith, e))
  Deep-of_in k id (j ∷ ids) (d, a) e = elim (Bool-cases (j == id)) [
    | inl b ↦ subst (λ i. Deep k i) ((==_iff j id).0 b) d
    | inr b ↦ Deep-of_in k id ids a (ground (arith, e, b))
  ]

  child-Deep : (k : ℕ) (g : AssetGroup) → 0 < g.id → Found t g → Deep k g.parent → Deep (suc k) g.id
  unfolding depth
  child-Deep k g p e d = omega (arith, depth_eq (rooted g.id) (above g p e (rooted g.parent)) refl)

  pub children-Deep :
      (n k : ℕ) (u : String) (ids : List ℕ) (l : List AssetGroup)
      → All (Found t) l
      → All (Counted n) l
      → All (Deep k) ids
      → All (Deep (suc k)) (children u ids l)
  unfolding children
  children-Deep n k u ids [] f c d = tt
  children-Deep n k u ids (g ∷ l) (fg, f) (cg, c) d = elim (Bool-cases (child_of u ids g)) [
    | inl b ↦ rw b (
      child-Deep k g cg.0 fg (Deep-of_in k g.parent ids d (ground (arith, b))),
      children-Deep n k u ids l f c d,
    )
    | inr b ↦ rw b (children-Deep n k u ids l f c d)
  ]

module _ (fails : ℕ → Bool) (t : Tables) (h : IsForest t) (u : String) where
  -- The loop leaves the tables as they were, and is given up in no more rounds than there are
  -- folders.
  abbrev pub Collected : ℕ → Outcome (Result (List ℕ)) × World → Type 0
  Collected m (returned out_of_fuel, w) = (m ≤ length t.groups) × (w.tables ≡ t) × (w.saved ≡ none)
  Collected m (returned _, w) = (w.tables ≡ t) × (w.saved ≡ none)
  Collected m (crashed, w) = ⊥

  pub collect-Collected :
      (fuel k m n : ℕ) (gids ids : List ℕ)
      → All (Deep t.groups h.rooted k) ids
      → fuel + k ≡ m
      → Collected m
          (run fails (collect fuel u gids ids) (record { tables = t; saved = none; tick = n }))
  unfolding Program.run collect succeed fail failed answer
  collect-Collected zero k m n gids [] d l = (refl, refl)
  collect-Collected (suc fuel) k m n gids [] d l = (refl, refl)
  collect-Collected zero k m n gids (id ∷ ids) (d, ds) l =
      (omega (arith, depth-le-length t.groups h.rooted (h.rooted id)), refl, refl)
  collect-Collected (suc fuel) k m n gids (id ∷ ids) d l =
      call-holds (Collected m) fails (Cmd.select_children u (id ∷ ids))
        (λ next. or_db_error next λ next. collect fuel u (gids ++ next) next)
        (record { tables = t; saved = none; tick = n }) (refl, refl)
        (collect-Collected fuel (suc k) m (suc n) _ (children u (id ∷ ids) t.groups)
          (children-Deep t.groups h.rooted t.next_id k u (id ∷ ids) t.groups
            (Found-All t.groups h.keyed) h.counted d)
          (omega arith))
