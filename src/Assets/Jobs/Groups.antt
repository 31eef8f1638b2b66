-- ===== src/Assets/Jobs/Groups.antt =====
-- One round of the job: the folders of a level are emptied and deleted.
use titan_explorer.Base.{
  ℕ, suc, ◌≡◌, refl, sym, subst, String, Bool, true, false, not, none, some, List, [], ◌∷◌, keep,
  arith, if◌then◌else◌,
}
use titan_explorer.Base.Program
use titan_explorer.Base.Program.{
  Outcome, returned, crashed, ret, call, ask, ◌>>=◌, ◌>>◌, skip, or_skip, for_each,
}
use titan_explorer.Assets.Types.{UserAsset, UserAssetArea, Tables}
use titan_explorer.Assets.Prog.{Stmt, Cmd, Prog}
use titan_explorer.Assets.Rows.{in_groups, joined, by_area, only_assets}
use titan_explorer.Assets.Store.{
  World, restored, refused, succeed, fail, failed, answer, effect, run,
}
use titan_explorer.Assets.Files.{exec, or_error}
use titan_explorer.Assets.Files.Steps.{call-holds}
use titan_explorer.Assets.Jobs.{delete_user_group_asset, delete_asset_by_group, remove_one}

pub keep-not : (p : UserAsset → Bool) (l : List UserAsset) → keep p (keep (λ a. not (p a)) l) ≡ []
keep-not p [] = refl
keep-not p (a ∷ l) = ground (arith, keep-not p l)

joined-nil : (assets : List UserAsset) (areas : List UserAssetArea) → joined [] assets areas ≡ []
unfolding joined
joined-nil assets [] = refl
joined-nil assets (r ∷ t) = joined-nil assets t

-- Where no file of the folders is left, none is found that lies in one area.
pub only_assets-nil :
    (u : String) (ids : List ℕ) (assets : List UserAsset) (areas : List UserAssetArea)
    → keep (in_groups u ids) assets ≡ []
    → only_assets u ids assets areas ≡ []
unfolding only_assets by_area
only_assets-nil u ids assets areas e = rw (e, joined-nil assets areas) refl

-- The statements of the job.
pub data InJob (u : String) (ids : List ℕ) : Stmt → Type 0 where
  areas : InJob u ids (Stmt.delete_areas_in u ids)
  assets : InJob u ids (Stmt.delete_assets_in u ids)
  groups : InJob u ids (Stmt.delete_groups u ids)
  again : InJob u ids (Stmt.enqueue u ids)

-- What those statements keep, every round keeps.
module _ (fails : ℕ → Bool) (I : Tables → Type 0) (u : String) (ids : List ℕ)
    (keeps : (s : Stmt) → InJob u ids s → (t : Tables) → I t → I (effect s t)) where
  abbrev at : Tables → ℕ → World
  at t n = record { tables = t; saved = none; tick = n }

  module _ {B : Type 0} (Post : Outcome B × World → Type 0) (k : Prog B)
      (goes_on : (t : Tables) (n : ℕ) → I t → Post (run fails k (at t n))) where
    abbrev Then : Prog (Unit {0}) → World → Type 0
    Then p w = Post (run fails (p >> k) w)

    enqueue-Then : (t : Tables) (n : ℕ) → I t → Then (do exec (Stmt.enqueue u ids); skip) (at t n)
    unfolding Program.run succeed fail effect
    enqueue-Then t n i =
        call-holds Post fails (Cmd.exec (Stmt.enqueue u ids)) (λ _. k) (at t n)
          (goes_on t (suc n) i) (goes_on _ (suc n) (keeps (Stmt.enqueue u ids) again t i))

    -- What follows the transaction.
    abbrev rest_of : Bool → Prog (Unit {0})
    rest_of err =
        if err
        then (do exec (Stmt.enqueue u ids); skip)
        else (do maps ← ask (Cmd.select_only u ids); or_skip maps λ maps. for_each remove_one maps)

    abbrev outer : Prog Bool → Prog B
    outer body = ((body >>= λ err. do exec Stmt.rollback; ret err) >>= rest_of) >> k

    -- In the transaction that began with `t`, whose tables are `v`.
    abbrev open_at : Tables → Tables → ℕ → World
    open_at t v n = record { tables = v; saved = some t; tick = n }

    -- A statement failed, or the commit did.
    rolled_back :
        (w : World) (t : Tables) → I t → restored w ≡ t → Post (run fails (outer (ret true)) w)
    unfolding Program.run succeed fail
    rolled_back w t i e =
        let again = enqueue-Then (restored w) (suc w.tick) (subst I (sym e) i) in
        call-holds Post fails (Cmd.exec Stmt.rollback) (λ _. rest_of true >> k) w again again

    stmt-Then :
        (s : Stmt) (rest : Prog Bool) (t v : Tables) (n : ℕ)
        → I t
        → fail (Cmd.exec s) (open_at t v n) ≡ open_at t v (suc n)
        → succeed (Cmd.exec s) (open_at t v n) ≡ open_at t (effect s v) (suc n)
        → refused s v ≡ false
        → Post (run fails (outer rest) (open_at t (effect s v) (suc n)))
        → Post (run fails (outer (or_error s rest)) (open_at t v n))
    unfolding Program.run failed answer
    stmt-Then s rest t v n i f g r q =
        call-holds Post fails (Cmd.exec s) (λ err. outer (if err then ret true else rest))
          (open_at t v n) (rw f (rolled_back (open_at t v (suc n)) t i refl)) (rw (g, r) q)

    -- The files are gone: nothing is found to remove.
    committed :
        (v : Tables) (n : ℕ)
        → I v
        → keep (in_groups u ids) v.assets ≡ []
        → Post (run fails (outer (ret false)) (at v n))
    unfolding Program.run succeed fail failed answer for_each
    committed v n i e =
        call-holds Post fails (Cmd.exec Stmt.rollback) (λ _. rest_of false >> k) (at v n) ask_only
          ask_only
      where
        ask_only : Post (run fails (rest_of false >> k) (at v (suc n)))
        ask_only =
            call-holds Post fails (Cmd.select_only u ids)
              (λ maps. (or_skip maps λ maps. for_each remove_one maps) >> k) (at v (suc n))
              (goes_on v (suc (suc n)) i)
              (rw (only_assets-nil u ids v.assets v.areas e) (goes_on v (suc (suc n)) i))

    commit-Then :
        (t v : Tables) (n : ℕ)
        → I t
        → I v
        → keep (in_groups u ids) v.assets ≡ []
        → Post (run fails (outer (exec Stmt.commit)) (open_at t v n))
    unfolding Program.run succeed fail failed answer refused
    commit-Then t v n i j e =
        call-holds Post fails (Cmd.exec Stmt.commit) (λ err. outer (ret err)) (open_at t v n)
          (rolled_back (record { tables = t; saved = none; tick = suc n }) t i refl)
          (committed v (suc n) j e)

    pub delete_asset_by_group-Then :
        (t : Tables) (n : ℕ) → I t → Then (delete_asset_by_group u ids) (at t n)
    unfolding Program.run delete_asset_by_group delete_user_group_asset succeed fail failed answer
        refused effect
    delete_asset_by_group-Then t n i =
        let i1 = keeps (Stmt.delete_areas_in u ids) areas t i in
        let i2 = keeps (Stmt.delete_assets_in u ids) assets _ i1 in
        let i3 = keeps (Stmt.delete_groups u ids) groups _ i2 in
        call-holds Post fails (Cmd.exec Stmt.begin)
          (λ err. ((if err then ret true else inner) >>= rest_of) >> k) (at t n)
          (enqueue-Then t (suc n) i)
          (stmt-Then (Stmt.delete_areas_in u ids) _ t t (suc n) i refl refl refl (
            stmt-Then (Stmt.delete_assets_in u ids) _ t _ (suc (suc n)) i refl refl refl (
              stmt-Then (Stmt.delete_groups u ids) (exec Stmt.commit) t _ (suc (suc (suc n))) i refl
                refl refl
                (commit-Then t _ (suc (suc (suc (suc n)))) i i3
                  (keep-not (in_groups u ids) t.assets)))))
      where
        inner : Prog Bool
        inner = do
          err ← or_error (Stmt.delete_areas_in u ids) (
              or_error (Stmt.delete_assets_in u ids)
                (or_error (Stmt.delete_groups u ids) (exec Stmt.commit)))
          exec Stmt.rollback
          ret err
