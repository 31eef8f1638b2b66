-- ===== src/Assets/Store.antt =====
-- The tables, what each statement answers and leaves, and how a program runs on them. A statement
-- that fails answers an error and changes nothing; a transaction that is rolled back, or whose
-- commit fails, leaves the tables as they were when it began.
use titan_explorer.Base.{
  ℕ, suc, ◌+◌, String, Bool, true, false, not, ◌&&◌, Option, none, some, [], ◌∷◌, ◌++◌, map, keep,
  length, if◌then◌else◌, str_eq, ◌==◌,
}
use titan_explorer.Base.Program
use titan_explorer.Base.Program.{Outcome}
use titan_explorer.Base.Sql.{scan_error}
use titan_explorer.Assets.Types.{Tables}
use titan_explorer.Assets.Prog.{Stmt, Cmd, Resp, Prog}
use titan_explorer.Assets.Rows
use titan_explorer.Assets.Rows.{
  among, is_in, of_user, find_asset, scan_of, size_of, delete_asset_rows, in_groups, sum_of,
  update_assets, update_used, plus, minus, at_least_0, insert_ignore_areas, set_sync, of_areas,
  insert_ignore_map, find_group, parent_of, find_own_group, count_of, children, update_groups,
  own_group, only_assets,
}

pub record World : Type 0 where
  pub tables : Tables
  -- the tables when the open transaction began
  pub saved : Option Tables
  pub tick : ℕ

-- The answer of a statement that fails.
unfoldable pub failed : (c : Cmd) → Resp c
failed (Cmd.select_asset h u) = scan_error
failed (Cmd.select_size h u) = scan_error
failed (Cmd.select_areas h u) = none
failed (Cmd.select_areas_among h u l) = none
failed (Cmd.select_group u id) = scan_error
failed (Cmd.count_assets u id) = none
failed (Cmd.count_children u id) = none
failed (Cmd.select_parent id) = scan_error
failed (Cmd.count_groups u) = none
failed (Cmd.insert_group u n p) = none
failed (Cmd.select_children u ids) = none
failed (Cmd.sum_sizes u ids) = none
failed (Cmd.select_only u ids) = none
failed (Cmd.exec s) = true

abbrev is_found : {A : Type 0} → Option A → Bool
is_found none = false
is_found (some a) = true

-- A second row under a key is refused.
unfoldable pub refused : Stmt → Tables → Bool
unfolding find_asset
refused (Stmt.insert_asset a) t = is_found (find_asset a.hash a.user_id t.assets)
refused _ t = false

-- The answer of a call that does not fail.
unfoldable pub answer : (c : Cmd) → Tables → Resp c
unfolding refused find_asset find_group find_own_group children sum_of only_assets
answer (Cmd.select_asset h u) t = scan_of (find_asset h u t.assets)
answer (Cmd.select_size h u) t = size_of (find_asset h u t.assets)
answer (Cmd.select_areas h u) t =
    some (map (λ r. r.area_id) (keep (λ r. str_eq r.hash h && str_eq r.user_id u) t.areas))
answer (Cmd.select_areas_among h u l) t =
    some (map (λ r. r.area_id) (keep (of_areas h u l) t.areas))
answer (Cmd.select_group u id) t = find_own_group u id t.groups
answer (Cmd.count_assets u id) t =
    some (length (keep (λ a. str_eq a.user_id u && a.group_id == id) t.assets))
answer (Cmd.count_children u id) t =
    some (count_of (λ g. str_eq g.user_id u && g.parent == id) t.groups)
answer (Cmd.select_parent id) t = parent_of (find_group id t.groups)
answer (Cmd.count_groups u) t = some (count_of (λ g. str_eq g.user_id u) t.groups)
answer (Cmd.insert_group u n p) t = some t.next_id
answer (Cmd.select_children u ids) t = some (children u ids t.groups)
answer (Cmd.sum_sizes u ids) t = some (sum_of (in_groups u ids) t.assets)
answer (Cmd.select_only u ids) t = some (only_assets u ids t.assets t.areas)
answer (Cmd.exec s) t = refused s t

-- The tables after a statement that does not fail.
unfoldable pub effect : Stmt → Tables → Tables
unfolding find_asset update_assets update_used insert_ignore_areas set_sync Rows.upsert_areas
    insert_ignore_map update_groups
effect (Stmt.insert_asset a) t =
    if is_found (find_asset a.hash a.user_id t.assets)
    then t
    else record t { assets = t.assets ++ (a ∷ []) }
effect (Stmt.delete_asset h u) t = record t { assets = delete_asset_rows h u t.assets }
effect (Stmt.delete_visits h u) t = record t {
  visits = keep (λ v. not (str_eq v.user_id u && str_eq v.hash h)) t.visits;
}
effect (Stmt.upsert_areas h u l) t = record t { areas = Rows.upsert_areas h u l t.areas }
effect (Stmt.insert_areas h u l) t = record t { areas = insert_ignore_areas h u l t.areas }
effect (Stmt.delete_areas h u l) t = record t { areas = keep (λ r. not (of_areas h u l r)) t.areas }
effect (Stmt.update_areas h u l b) t = record t { areas = set_sync (of_areas h u l) b t.areas }
effect (Stmt.insert_map u h) t = record t { maps = insert_ignore_map u h t.maps }
effect (Stmt.add_used u n) t = record t { users = update_used u (plus n) t.users }
effect (Stmt.sub_used_floor u n) t = record t {
  users = update_used u (λ z. at_least_0 (minus n z)) t.users;
}
effect (Stmt.sub_used u n) t = record t { users = update_used u (minus n) t.users }
effect (Stmt.delete_links u cid) t = record t {
  links = keep (λ l. not (str_eq l.username u && str_eq l.cid cid)) t.links;
}
effect (Stmt.delete_children u id) t = record t {
  groups = keep (λ g. not (str_eq g.user_id u && g.parent == id)) t.groups;
}
effect (Stmt.delete_group u id) t = record t {
  groups = keep (λ g. not (own_group u id g)) t.groups;
}
effect (Stmt.share_group u id) t = record t {
  groups = update_groups (own_group u id) (λ g. record g { share_status = 1 }) t.groups;
}
effect (Stmt.visit_group u id) t = record t {
  groups =
      update_groups (own_group u id) (λ g. record g { visit_count = g.visit_count + 1 }) t.groups;
}
effect (Stmt.rename_group u n id) t = record t {
  groups = update_groups (own_group u id) (λ g. record g { name = n }) t.groups;
}
effect (Stmt.set_parent u id p) t = record t {
  groups = update_groups (own_group u id) (λ g. record g { parent = p }) t.groups;
}
effect (Stmt.delete_areas_in u ids) t = record t {
  areas =
      keep
        (λ r. not (
          str_eq r.user_id u && among r.hash (map (λ a. a.hash) (keep (in_groups u ids) t.assets))))
        t.areas;
}
effect (Stmt.delete_assets_in u ids) t = record t {
  assets = keep (λ a. not (in_groups u ids a)) t.assets;
}
effect (Stmt.delete_groups u ids) t = record t {
  groups = keep (λ g. not (str_eq g.user_id u && is_in g.id ids)) t.groups;
}
effect (Stmt.set_asset_group u h id) t = record t {
  assets = update_assets (of_user h u) (λ a. record a { group_id = id }) t.assets;
}
effect (Stmt.rename_asset n u h) t = record t {
  assets = update_assets (of_user h u) (λ a. record a { asset_name = n }) t.assets;
}
effect (Stmt.share_asset h u) t = record t {
  assets = update_assets (of_user h u) (λ a. record a { share_status = 1 }) t.assets;
}
effect (Stmt.set_cid h cid) t = record t {
  assets = update_assets (λ a. str_eq a.hash h) (λ a. record a { cid = cid }) t.assets;
}
effect (Stmt.update_asset b) t = record t {
  assets =
      update_assets (of_user b.hash b.user_id)
        (λ a. record a {
          asset_name = b.asset_name;
          asset_type = b.asset_type;
          share_status = b.share_status;
          expiration = b.expiration;
          total_size = b.total_size;
          password = b.password;
          group_id = b.group_id;
        })
        t.assets;
}
effect (Stmt.enqueue u ids) t = record t {
  tasks = t.tasks ++ (record { user_id = u; group_id = ids } ∷ []);
}
effect (Stmt.remove_records area cids) t = record t { removals = t.removals ++ ((area, cids) ∷ []) }
effect _ t = t

-- `INSERT INTO user_asset_group`
unfoldable pub inserted : String → String → ℕ → Tables → Tables
inserted u n p t = record t {
  groups =
      t.groups
      ++ (record {
        id = t.next_id;
        user_id = u;
        name = n;
        parent = p;
        share_status = 0;
        visit_count = 0;
      }
          ∷ []);
  next_id = suc t.next_id;
}

abbrev pub restored : World → Tables
restored w = elim w.saved [ none ↦ w.tables | some t ↦ t ]

-- A call that does not fail. A rollback after the commit changes nothing.
unfoldable pub succeed : Cmd → World → World
unfolding effect inserted
succeed (Cmd.exec Stmt.begin) w = record {
  tables = w.tables;
  saved = some w.tables;
  tick = suc w.tick;
}
succeed (Cmd.exec Stmt.commit) w = record { tables = w.tables; saved = none; tick = suc w.tick }
succeed (Cmd.exec Stmt.rollback) w = record { tables = restored w; saved = none; tick = suc w.tick }
succeed (Cmd.exec s) w = record { tables = effect s w.tables; saved = w.saved; tick = suc w.tick }
succeed (Cmd.insert_group u n p) w = record {
  tables = inserted u n p w.tables;
  saved = w.saved;
  tick = suc w.tick;
}
succeed c w = record { tables = w.tables; saved = w.saved; tick = suc w.tick }

-- One that fails. A commit that fails is rolled back, and so is what an unanswered rollback leaves.
unfoldable pub fail : Cmd → World → World
fail (Cmd.exec Stmt.commit) w = record { tables = restored w; saved = none; tick = suc w.tick }
fail (Cmd.exec Stmt.rollback) w = record { tables = restored w; saved = none; tick = suc w.tick }
fail c w = record { tables = w.tables; saved = w.saved; tick = suc w.tick }

-- `fails n` says whether the n-th call fails.
unfoldable pub handle : (ℕ → Bool) → (c : Cmd) → World → Resp c × World
unfolding failed answer succeed fail
handle fails c w = if fails w.tick then (failed c, fail c w) else (answer c w.tables, succeed c w)

abbrev pub run : {A : Type 0} → (ℕ → Bool) → Prog A → World → Outcome A × World
run fails = Program.run (handle fails)
