-- ===== src/Network/Nodes/Counted.antt =====
-- The nodes that are counted out.
use Prim.Native.Nat.{zero}
use botcoin.Base.{ℕ, suc, ◌+◌, ◌<◌, ◌≡◌, refl, some, arith, length, get_elem?, ap, subst}
use native.Mathlib.Nat.{add-zero}
use botcoin.Network.Nodes.{Plan, counted_node, create_nodes_from, create_nodes_iteratively}

length-create_nodes_from : (plan : Plan) (n i : ℕ) → length (create_nodes_from plan n i) ≡ n
unfolding create_nodes_from
length-create_nodes_from plan zero i = refl
length-create_nodes_from plan (suc n) i = ap suc (length-create_nodes_from plan n (i + 1))

get_elem?-create_nodes_from :
    (plan : Plan) (n i k : ℕ)
    → k < n
    → get_elem? (create_nodes_from plan n i) k ≡ some (counted_node plan (i + k))
unfolding create_nodes_from
get_elem?-create_nodes_from plan zero i k h = absurd (omega arith)
get_elem?-create_nodes_from plan (suc n) i zero h = rw add-zero
get_elem?-create_nodes_from plan (suc n) i (suc k) h =
    let e : i + 1 + k ≡ i + suc k = omega arith in
    subst (λ j. get_elem? (create_nodes_from plan n (i + 1)) k ≡ some (counted_node plan j)) e
      (get_elem?-create_nodes_from plan n (i + 1) k (omega arith))

-- There are as many nodes as were asked for, and the one at each index below that number has the
-- name, the address and the role of that index.
pub create_nodes_iteratively-at :
    (plan : Plan) (n : ℕ)
    → (length (create_nodes_iteratively plan n) ≡ n)
      × ((k : ℕ)
          → k < n
          → get_elem? (create_nodes_iteratively plan n) k ≡ some (counted_node plan k))
unfolding create_nodes_iteratively
create_nodes_iteratively-at plan n = (
  length-create_nodes_from plan n 0,
  λ k h.
      let e : 0 + k ≡ k = omega arith in
      subst (λ j. get_elem? (create_nodes_from plan n 0) k ≡ some (counted_node plan j)) e
        (get_elem?-create_nodes_from plan n 0 k h),
)
