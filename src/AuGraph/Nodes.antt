-- ===== src/AuGraph/Nodes.antt =====
-- What the loops over the nodes of a graph yield.
use mathlib.Core.List.{append_assoc, append-nil}
use cxxaudio_utilities.Base.{
  ℕ, zero, suc, ◌+◌, ◌<◌, ◌≡◌, refl, sym, ap, ◌∙◌, arith, some, List, [], ◌∷◌, ◌++◌, replicate,
  Exception, thrown, done, try_then,
}
use cxxaudio_utilities.AuGraph.{
  Graph, collect, nodes, node_interactions, collect_interactions, nodes_and_interactions,
}

-- A graph of `n` nodes that the system answers for.
pub record Answers {I N : Type 0} (g : Graph I N) (n : ℕ) (node : ℕ → ℕ) : Type 0 where
  pub counted : g.node_count ≡ done n
  pub indexed : (i : ℕ) → i < n → g.ind_node i ≡ done (node i)

-- `left` nodes from number `i` on.
abbrev pub listed : (ℕ → ℕ) → ℕ → ℕ → List ℕ
listed node zero i = []
listed node (suc left) i = node i ∷ listed node left (i + 1)

module _ {I N : Type 0} (g : Graph I N) where
  collect_lem :
      (node : ℕ → ℕ) (left i : ℕ) (acc : List ℕ)
      → ((j : ℕ) → j < i + left → g.ind_node j ≡ done (node j))
      → collect g left i acc ≡ done (acc ++ listed node left i)
  unfolding collect
  collect_lem node zero i acc h = ap done (sym (append-nil acc))
  collect_lem node (suc left) i acc h =
      ap (λ r. try_then r λ x. collect g left (i + 1) (acc ++ x ∷ [])) (h i (omega arith))
      ∙ collect_lem node left (i + 1) (acc ++ node i ∷ []) (λ j lt. h j (omega arith))
      ∙ ap done (append_assoc acc (node i ∷ []) (listed node left (i + 1)))

  nodes_lem :
      (n : ℕ) (node : ℕ → ℕ) → Answers g n node → nodes g ≡ done (replicate n 0 ++ listed node n 0)
  unfolding nodes
  nodes_lem n node v =
      ap (λ r. try_then r λ n. collect g n 0 (replicate n 0)) v.counted
      ∙ collect_lem node n 0 (replicate n 0) (λ j lt. v.indexed j (omega arith))

  node_interactions-thrown :
      (node : ℕ) (e : Exception)
      → g.count_node_interactions node ≡ thrown e
      → node_interactions g node ≡ some (thrown e)
  unfolding node_interactions
  node_interactions-thrown node e h = rw (node_interactions, h) refl

  first_throws :
      (e : Exception) (rest : List ℕ)
      → g.count_node_interactions 0 ≡ thrown e
      → collect_interactions g (0 ∷ rest) [] ≡ some (thrown e)
  unfolding collect_interactions
  first_throws e rest h =
      let now = node_interactions-thrown 0 e h in rw (collect_interactions, now) refl

  interactions_of :
      (ns : List ℕ) → nodes g ≡ done ns → nodes_and_interactions g ≡ collect_interactions g ns []
  unfolding nodes_and_interactions
  interactions_of ns h = rw (nodes_and_interactions, h) refl

  -- In a graph of one node or more that the system answers for, in which 0 is not a node, so that
  -- counting its interactions throws: `Nodes` returns a 0 for every node in front of the nodes, and
  -- `NodesAndInteractions` throws what counting those of 0 throws.
  pub nodes-zeros :
      (n : ℕ) (node : ℕ → ℕ) (e : Exception)
      → Answers g (suc n) node
      → g.count_node_interactions 0 ≡ thrown e
      → (nodes g ≡ done (replicate (suc n) 0 ++ listed node (suc n) 0))
        × (nodes_and_interactions g ≡ some (thrown e))
  nodes-zeros n node e v unknown =
      let ns = nodes_lem (suc n) node v in
      (
        ns,
        interactions_of (replicate (suc n) 0 ++ listed node (suc n) 0) ns
            ∙ first_throws e (replicate n 0 ++ listed node (suc n) 0) unknown,
      )
