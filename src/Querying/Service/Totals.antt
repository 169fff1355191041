-- ===== src/Querying/Service/Totals.antt =====
-- What get_dependencies and get_dependents say about the number of neighbors.
use repo_agent.Prelude.{
  ℕ, ◌≤◌, ◌≡◌, refl, Bool, true, false, not, ◌||◌, Option, none, some, List, [], ◌∷◌, ◌++◌, map,
  arith, ltb, ◌==◌, if◌then◌else◌, length,
}
use repo_agent.Prelude.Int.{ℤ}
use repo_agent.Prelude.Json.{Json, null, bool, number, str, array, object, Fields, get_field}
use repo_agent.Prelude.Words.{Text, mem_text, IsDistinct, IsDistinct-snoc, is_text}
use repo_agent.Querying.Hits.{NeighborHit, neighbor_hit, unique_hops, text_or_empty}
use repo_agent.Querying.Service.{
  Query, Client, QueryResult, execute, NeighborQueryResult, total_in, neighbor_total,
  neighbors_with, counted_neighbors, neighbors_of,
}

hop_or :
    (b : Bool) (hop : Text) (hops : List Text)
    → (not (is_text hop) || mem_text hop hops) ≡ b
    → IsDistinct hops
    → IsDistinct (if b then hops else hops ++ hop ∷ [])
hop_or true hop hops e d = d
hop_or false hop hops e d = IsDistinct-snoc hops hop d (ground (arith, e))

unique_hops-IsDistinct :
    (ns : List NeighborHit) (hops : List Text) → IsDistinct hops → IsDistinct (unique_hops ns hops)
unfolding unique_hops
unique_hops-IsDistinct [] hops d = d
unique_hops-IsDistinct (n ∷ ns) hops d = unique_hops-IsDistinct ns _ (
    hop_or (not (is_text (text_or_empty n.hop)) || mem_text (text_or_empty n.hop) hops)
      (text_or_empty n.hop) hops refl d)

total_in-at_least : (int_of : Json → ℤ) (v : Json) (n : ℕ) → n ≤ total_in int_of v n
unfolding total_in
total_in-at_least int_of null n = omega arith
total_in-at_least int_of (str []) n = omega arith
total_in-at_least int_of (str (c ∷ s)) n = omega arith
total_in-at_least int_of (bool b) n = omega arith
total_in-at_least int_of (number z) n = omega arith
total_in-at_least int_of (array vs) n = omega arith
total_in-at_least int_of (object fs) n = omega arith

neighbor_total-at_least :
    (int_of : Json → ℤ) (rows : List Fields) (n : ℕ) → n ≤ neighbor_total int_of rows n
unfolding neighbor_total
neighbor_total-at_least int_of [] n = omega arith
neighbor_total-at_least int_of (row ∷ rows) n = total_in-at_least int_of (get_field "total" row) n

-- The neighbors that are given are counted, there are not fewer in the graph, there are as many unless
-- the result is marked as truncated, and no hop stands twice.
unfoldable pub IsCounted : Option NeighborQueryResult → Type 0
IsCounted none = Unit
IsCounted (some r) =
    (r.result_count ≡ length r.neighbors)
    × (r.result_count ≤ r.total_count)
    × ((r.truncated || r.total_count == r.result_count) ≡ true)
    × IsDistinct r.hops

complete_or_truncated :
    (n total : ℕ) (b : Bool) → n ≤ total → ((ltb n total || b) || total == n) ≡ true
complete_or_truncated n total b h = ground (arith, h)

neighbors_with-IsCounted :
    (c : Client) (name : Text) (found : QueryResult) (o : Option QueryResult)
    → IsCounted (neighbors_with c name found o)
unfolding IsCounted neighbors_with IsDistinct
neighbors_with-IsCounted c name found none = tt
neighbors_with-IsCounted c name found (some counted) =
    let neighbors = map (neighbor_hit c.str_of) found.rows in
    let enough = neighbor_total-at_least c.int_of counted.rows (length neighbors) in
    (
      refl,
      enough,
      complete_or_truncated (length neighbors)
          (neighbor_total c.int_of counted.rows (length neighbors)) found.truncated enough,
      unique_hops-IsDistinct neighbors [] tt,
    )

IsCounted-if :
    (c : Client) (name : Text) (o p : Option QueryResult) → IsCounted (counted_neighbors c name o p)
unfolding counted_neighbors IsCounted
IsCounted-if c name none p = tt
IsCounted-if c name (some found) p = neighbors_with-IsCounted c name found p

-- When get_dependencies or get_dependents gives a result: its count is that of its neighbors, it is at
-- most the total, it is the total unless the result is marked as truncated, and no hop stands twice.
pub neighbors_of-IsCounted :
    (c : Client) (q count : Query) (name : Text) → IsCounted (neighbors_of c q count name)
unfolding neighbors_of
neighbors_of-IsCounted c q count name = IsCounted-if c name (execute c q _) (execute c count _)
