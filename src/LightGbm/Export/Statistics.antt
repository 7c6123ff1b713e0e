-- ===== src/LightGbm/Export/Statistics.antt =====
-- The counts and gains of LightGBM's nodes.
use treelite.Prelude.{ℕ, ◌<◌, ◌≡◌, ◌⊎◌, refl, inl, inr, true, List, [], ◌∷◌, some, ok, get_elem?}
use treelite.Base.{TlFloat}
use treelite.Tree.{Tree}
use treelite.Tree.Invariant.{IsValid}
use treelite.Frontend.Kept.{Decorated, Decorated-none}
use treelite.Frontend.Statistics.{set_data_count-Decorated, set_gain-Decorated}
use treelite.LightGbm.Numbers.{FloatLibrary}
use treelite.LightGbm.Export.{put_count, put_gain, not_negative}

-- There are no counts, or there is one for this node that is not negative.
unfoldable pub CountOk : List ℕ → ℕ → Type 0
CountOk counts i =
    (counts ≡ []) ⊎ ((c : ℕ) × (get_elem? counts i ≡ some c) × (not_negative c ≡ true))

pub put_count-Decorated :
    (counts : List ℕ) (i nid : ℕ) (t : Tree)
    → IsValid t
    → nid < t.num_nodes
    → CountOk counts i
    → (u : Tree) × (put_count counts i nid t ≡ ok u) × Decorated t u
unfolding put_count CountOk
put_count-Decorated [] i nid t v inside c = (t, refl, Decorated-none t v)
put_count-Decorated (x ∷ xs) i nid t v inside (inl e) = cc
put_count-Decorated (x ∷ xs) i nid t v inside (inr (c, e, n)) =
    let (u, r, d) = set_data_count-Decorated nid c t v inside in (u, rw (e, n) r, d)

unfoldable pub GainOk : List TlFloat → ℕ → Type 0
GainOk gains i = (gains ≡ []) ⊎ ((g : TlFloat) × (get_elem? gains i ≡ some g))

pub put_gain-Decorated :
    (lib : FloatLibrary) (gains : List TlFloat) (i nid : ℕ) (t : Tree)
    → IsValid t
    → nid < t.num_nodes
    → GainOk gains i
    → (u : Tree) × (put_gain lib gains i nid t ≡ ok u) × Decorated t u
unfolding put_gain GainOk
put_gain-Decorated lib [] i nid t v inside c = (t, refl, Decorated-none t v)
put_gain-Decorated lib (x ∷ xs) i nid t v inside (inl e) = cc
put_gain-Decorated lib (x ∷ xs) i nid t v inside (inr (g, e)) =
    let (u, r, d) = set_gain-Decorated nid (lib.widen g) t v inside in (u, rw e r, d)
