-- ===== src/Graphs.antt =====
-- ivl/graphs/graph.hpp and ivl/graphs/scc.hpp: the strongly connected components of a directed graph.
-- Nodes and times are `uint32_t`, and times count nodes, so they are unbounded here. The stack has its
-- top first. `none` is an access outside a vector, or no fuel left.
mod Tests
use all.Prelude.{
  ℕ, zero, suc, ◌+◌, ◌-◌, ◌*◌, Bool, ◌&&◌, Option, none, some, ◌>>=◌, List, [], ◌∷◌, ◌++◌, length,
  get_elem?, set, replicate, leb, ◌==◌, if◌then◌else◌, min, max,
}

-- `DirectedGraph`.
pub record DirectedGraph : Type 0 where
  pub edges : List (List ℕ)

abbrev pub empty_graph : ℕ → DirectedGraph
empty_graph n = record { edges = replicate n [] }

abbrev pub node_count : DirectedGraph → ℕ
node_count g = length g.edges

abbrev pub outs : DirectedGraph → ℕ → Option (List ℕ)
outs g a = get_elem? g.edges a

unfoldable pub add_edge : ℕ → ℕ → DirectedGraph → Option DirectedGraph
add_edge a b g = outs g a >>= λ row. some (record { edges = set g.edges a (row ++ b ∷ []) })

pub data Color : Type 0 where
  not_visited on_stack finished : Color

-- `NodeState`; a state is 0 in the fields that the source leaves without a value.
pub record NodeState : Type 0 where
  pub time_seen : ℕ
  pub time_done : ℕ
  pub back_lo : ℕ
  pub back_hi : ℕ
  pub color : Color

-- The fields of `Engine` that change.
pub record Engine : Type 0 where
  pub states : List NodeState
  pub stack : List ℕ
  pub partition : List ℕ
  pub partition_count : ℕ
  pub time : ℕ

unfoldable pub start : DirectedGraph → Engine
start g = record {
  states =
      replicate (node_count g)
        (record { time_seen = 0; time_done = 0; back_lo = 0; back_hi = 0; color = not_visited });
  stack = [];
  partition = replicate (node_count g) 0;
  partition_count = 0;
  time = 0;
}

abbrev pub update : ℕ → (NodeState → NodeState) → Engine → Option Engine
update node f e =
    get_elem? e.states node >>= λ s. some (record e { states = set e.states node (f s) })

-- What `process` does before its loop.
unfoldable pub enter : ℕ → Engine → Option Engine
enter node e = do
  e' ←
      update node
        (λ s. record s { time_seen = e.time; back_lo = e.time; back_hi = e.time; color = on_stack })
        e
  some (record e' { time = e.time + 1; stack = node ∷ e.stack })

-- The case `on_stack` of the switch, into which `not_visited` falls.
unfoldable pub merge : ℕ → ℕ → Engine → Option Engine
merge node next e = do
  n ← get_elem? e.states next
  update node
      (λ s. record s { back_lo = min s.back_lo n.back_lo; back_hi = max s.back_hi n.back_hi }) e

-- `while (true)` over the stack, up to `node`.
unfoldable pub pop_component : ℕ → ℕ → List ℕ → Engine → Option Engine
pop_component node index [] e = none
pop_component node index (curr ∷ rest) e =
    let e₁ = record e { stack = rest; partition = set e.partition curr index } in
    do
      e₂ ← update curr (λ s. record s { color = finished }) e₁
      if curr == node then some e₂ else pop_component node index rest e₂

-- What `process` does after its loop.
unfoldable pub leave : ℕ → Engine → Option Engine
unfolding pop_component
leave node e = do
  e₁ ← update node (λ s. record s { time_done = e.time - 1 }) e
  s ← get_elem? e₁.states node
  if leb s.time_seen s.back_lo && leb s.back_hi s.time_done
      then pop_component node e₁.partition_count e₁.stack
          (record e₁ { partition_count = e₁.partition_count + 1 })
      else some e₁

unfoldable mutual
  unfolding enter merge leave

  pub process : ℕ → DirectedGraph → ℕ → Engine → Option Engine
  process zero g node e = none
  process (suc f) g node e = do
    e₁ ← enter node e
    row ← outs g node
    e₂ ← visit f g node row e₁
    leave node e₂

  -- The loop over `G.outs(node)`.
  pub visit : ℕ → DirectedGraph → ℕ → List ℕ → Engine → Option Engine
  visit zero g node row e = none
  visit (suc f) g node [] e = some e
  visit (suc f) g node (next ∷ row) e =
      let fresh = process f g next e >>= merge node next >>= visit f g node row in
      let known = merge node next e >>= visit f g node row in
      let old = visit f g node row e in
      get_elem? e.states next >>= λ s. elim s.color [
        | not_visited ↦ fresh
        | on_stack ↦ known
        | finished ↦ old
      ]

-- The loop over the nodes, from `node` on.
unfoldable pub process_all : ℕ → DirectedGraph → ℕ → ℕ → Engine → Option Engine
unfolding process
process_all fuel g zero node e = some e
process_all fuel g (suc k) node e =
    let first = process fuel g node e >>= process_all fuel g k (node + 1) in
    let skip = process_all fuel g k (node + 1) e in
    get_elem? e.states node >>= λ s. elim s.color [
      | not_visited ↦ first
      | on_stack ↦ skip
      | finished ↦ skip
    ]

unfoldable pub edge_count : List (List ℕ) → ℕ
edge_count [] = 0
edge_count (row ∷ rows) = length row + edge_count rows

-- `SCC`. A path of calls has a call of `process` for each node and a round for each edge.
unfoldable pub scc : DirectedGraph → Option (List ℕ)
unfolding start process_all edge_count
scc g =
    process_all (2 * node_count g + edge_count g.edges + 2) g (node_count g) 0 (start g) >>= λ e.
    some e.partition
