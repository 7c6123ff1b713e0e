-- ===== src/Frontend/Statistics.antt =====
-- The statistics of a node do not change what it tests.
use treelite.Prelude.{ℕ, ◌<◌, ◌≡◌, refl, true, ok}
use treelite.Tree.{Tree}
use treelite.Tree.Setters.{set_data_count, set_gain, set_sum_hess}
use treelite.Tree.Invariant.{IsValid}
use treelite.Frontend.Kept.{Decorated, decorate}

module _ (nid x : ℕ) (t : Tree) (v : IsValid t) (inside : nid < t.num_nodes) where
  pub set_data_count-Decorated : (u : Tree) × (set_data_count nid x t ≡ ok u) × Decorated t u
  unfolding set_data_count
  set_data_count-Decorated =
      decorate t nid (λ node. record node { data_count = x; data_count_present = true }) v inside
        λ node. record {
          same_left = refl;
          same_right = refl;
          same_sindex = refl;
          same_info = refl;
          same_type = refl;
          same_op = refl;
          same_zero = refl;
        }

  pub set_gain-Decorated : (u : Tree) × (set_gain nid x t ≡ ok u) × Decorated t u
  unfolding set_gain
  set_gain-Decorated =
      decorate t nid (λ node. record node { gain = x; gain_present = true }) v inside
        λ node. record {
          same_left = refl;
          same_right = refl;
          same_sindex = refl;
          same_info = refl;
          same_type = refl;
          same_op = refl;
          same_zero = refl;
        }

  pub set_sum_hess-Decorated : (u : Tree) × (set_sum_hess nid x t ≡ ok u) × Decorated t u
  unfolding set_sum_hess
  set_sum_hess-Decorated =
      decorate t nid (λ node. record node { sum_hess = x; sum_hess_present = true }) v inside
        λ node. record {
          same_left = refl;
          same_right = refl;
          same_sindex = refl;
          same_info = refl;
          same_type = refl;
          same_op = refl;
          same_zero = refl;
        }
