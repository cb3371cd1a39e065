-- ===== src/Examples/Rehydrate.antt =====
-- A state of two accounts and another key.
use nexus_go_ccnf_ref.Base.{Text, codes, some, List, [], ◌∷◌, ◌++◌, true, ◌≡◌}
use nexus_go_ccnf_ref.Base.Map.{lookup, keys}
use nexus_go_ccnf_ref.Runtime.Engine.{RuntimeState}
use nexus_go_ccnf_ref.Rehydrate.{Route, view, reader_scan}
use nexus_go_ccnf_ref.Rehydrate.Views.{IsScan, Listed, reader_scan-IsScan}
use nexus_go_ccnf_ref.Rehydrate.Account.{
  account_prefix, number_of, build_account_projection, get_balance,
  get_balance-build_account_projection,
}

abbrev state : RuntimeState
state = record {
  entries =
      (codes "acct:b", codes "x") ∷ (codes "log", codes "3") ∷ (codes "acct:a", codes "12") ∷ [];
  version = 3;
}

get_balance-build_account_projection_example :
    get_balance (build_account_projection state) (codes "a")
    ≡ number_of (lookup (account_prefix ++ codes "a") state.entries)
get_balance-build_account_projection_example =
    get_balance-build_account_projection state (codes "a")

abbrev routes : List (Route Text)
routes = record { prefix = codes "acct:"; decode = λ k v. view (some v) } ∷ []

reader_scan-IsScan_example :
    (ks : List Text) × (ws : List Text) × (reader_scan state routes (codes "acct:") ≡ (ws, true))
    × IsScan (codes "acct:") (keys state.entries) ks
    × Listed state routes ks ws
reader_scan-IsScan_example = reader_scan-IsScan state routes (codes "acct:")
