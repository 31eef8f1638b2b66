-- ===== src/Assets/Samples.antt =====
-- Rows of files and folders, for the tests.
use titan_explorer.Base.{ℕ, String, true, none, [], ◌∷◌}
use titan_explorer.Base.Int.{pos}
use titan_explorer.Assets.Types.{UserAsset, AssetGroup, Tables}
use titan_explorer.Assets.Store.{World}

abbrev pub file : String → ℕ → ℕ → UserAsset
file h size group = record {
  user_id = "u";
  hash = h;
  cid = h;
  asset_name = h;
  asset_type = "file";
  share_status = 0;
  expiration = 0;
  created_time = 0;
  total_size = size;
  password = "";
  group_id = group;
  md5 = "";
  extra_id = "";
  client_ip = "";
}

abbrev pub folder : ℕ → ℕ → AssetGroup
folder id parent = record {
  id = id;
  user_id = "u";
  name = "f";
  parent = parent;
  share_status = 0;
  visit_count = 0;
}

-- Folder 2 lies in folder 1; 3 is another folder of the root, and 4 lies in it.
abbrev pub sample : Tables
sample = record {
  assets = file "h" 10 1 ∷ file "k" 20 2 ∷ [];
  areas = record { hash = "h"; user_id = "u"; area_id = "a"; is_sync = true } ∷ [];
  groups = folder 1 0 ∷ folder 2 1 ∷ folder 3 0 ∷ folder 4 3 ∷ [];
  next_id = 5;
  users = record { username = "u"; used_storage_size = pos 30 } ∷ [];
  visits = [];
  links = [];
  maps = [];
  tasks = [];
  removals = [];
}

abbrev pub at_start : World
at_start = record { tables = sample; saved = none; tick = 0 }
