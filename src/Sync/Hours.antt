-- ===== src/Sync/Hours.antt =====
-- The rows of the dashboard at concrete inputs.
use titan_explorer.Base.{ℕ, ◌≡◌, refl, String, none, some, List, [], ◌∷◌}
use titan_explorer.Base.Int.{pos}
use titan_explorer.Queue.Memory.{memory, empty}
use titan_explorer.Sync.Traffic.{Info, load, store, key_of, cut, sync_dashboard}

abbrev info : String → ℕ → ℕ → Info
info user traffic peak = record {
  user_id = user;
  hash = "h";
  total_traffic = traffic;
  peak_bandwidth = peak;
}

abbrev infos : List Info
infos = info "u" 5 7 ∷ info "u" 9 2 ∷ []

-- One of two areas fails.
round :
    (sync_dashboard memory 60 (none ∷ some infos ∷ []) empty).0
    ≡ record {
      hash = "h";
      user_id = "u";
      total_traffic = 9;
      peak_bandwidth = 7;
      download_count = pos 0;
      timestamp = 60;
    }
      ∷ []
unfolding sync_dashboard
round = refl

-- A user with `_` in the name: the traffic is stored for another user and another hash.
cut_early : cut (key_of "a_b" "h") ≡ ("a", "b_h")
unfolding cut key_of
cut_early = refl

-- Both areas read the map before either stores: the smaller traffic is left.
lost : load "k" (store "k" 5 (store "k" 9 [])) ≡ some 5
unfolding load store
lost = refl
