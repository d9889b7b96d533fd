-- ===== src/AuGraph.antt =====
-- The helpers of `SFB::CAAUGraph`, of include/SFBCAAUGraph.hpp in Sources/CXXAudioUtilities: loops
-- over the nodes of a graph. What the system answers for the graph is a parameter, each answer a
-- value or the exception for a status. A result `none` is a fault.
pub mod Nodes
use cxxaudio_utilities.Base.{
  ℕ, zero, suc, ◌+◌, Option, none, some, List, [], ◌∷◌, ◌++◌, replicate, ◌==◌, if◌then◌else◌,
  Result, thrown, done, try_then,
}

-- `GetNodeCount`, `GetIndNode`, `CountNodeInteractions`, `GetNodeInteractions` for a number of
-- interactions, `NodeInfo` for the audio unit of a node, and a property of an audio unit.
pub record Graph (Interaction Number : Type 0) : Type 0 where
  pub node_count : Result ℕ
  pub ind_node : ℕ → Result ℕ
  pub count_node_interactions : ℕ → Result ℕ
  pub get_node_interactions : ℕ → ℕ → Result (List Interaction)
  pub node_unit : ℕ → Result ℕ
  pub latency_of : ℕ → Result Number
  pub tail_time_of : ℕ → Result Number

module _ {I N : Type 0} (g : Graph I N) where
  -- The loop of `Nodes`, on the vector so far.
  unfoldable pub collect : ℕ → ℕ → List ℕ → Result (List ℕ)
  collect zero i nodes = done nodes
  collect (suc left) i nodes =
      try_then (g.ind_node i) λ node. collect left (i + 1) (nodes ++ node ∷ [])

  -- The vector is made with as many zeros as there are nodes.
  unfoldable pub nodes : Result (List ℕ)
  nodes = try_then g.node_count λ node_count. collect node_count 0 (replicate node_count 0)

  -- `&interactions[0]` of an empty vector is a fault.
  unfoldable pub node_interactions : ℕ → Option (Result (List I))
  node_interactions node = elim (g.count_node_interactions node) [
    | thrown e ↦ some (thrown e)
    | done n ↦ if n == 0 then none else some (g.get_node_interactions node n)
  ]

  -- The loop of `NodesAndInteractions`; the last pair for a node is its entry of the map.
  unfoldable pub collect_interactions :
      List ℕ → List (ℕ × List I) → Option (Result (List (ℕ × List I)))
  collect_interactions [] found = some (done found)
  collect_interactions (node ∷ rest) found = elim (node_interactions node) [
    | none ↦ none
    | some (thrown e) ↦ some (thrown e)
    | some (done is) ↦ collect_interactions rest (found ++ (node, is) ∷ [])
  ]

  unfoldable pub nodes_and_interactions : Option (Result (List (ℕ × List I)))
  nodes_and_interactions = elim nodes [
    | thrown e ↦ some (thrown e)
    | done ns ↦ collect_interactions ns []
  ]

  -- The loop of `Latency` and of `TailTime`, with the property and the sum so far.
  unfoldable pub sum_over : (N → N → N) → (ℕ → Result N) → ℕ → ℕ → N → Result N
  sum_over add value zero i sum = done sum
  sum_over add value (suc left) i sum = try_then (g.ind_node i) λ node.
      try_then (g.node_unit node)
        λ au. try_then (value au) λ v. sum_over add value left (i + 1) (add sum v)

  unfoldable pub latency : (N → N → N) → N → Result N
  latency add no_time =
      try_then g.node_count λ node_count. sum_over add g.latency_of node_count 0 no_time

  unfoldable pub tail_time : (N → N → N) → N → Result N
  tail_time add no_time =
      try_then g.node_count λ node_count. sum_over add g.tail_time_of node_count 0 no_time
