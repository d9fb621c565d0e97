-- ===== src/KnowledgeGraph/Examples.antt =====
-- Runs of knowledge_graph.rs at concrete graphs, and the instances of its theorems.
use adk_gateway.Common.{ℕ, String, [], ◌∷◌, true, ◌&&◌, In, map, ◌≡◌, ◌≢◌, refl}
use adk_gateway.Common.Map.{lookup, insert, contains_key}
use adk_gateway.KnowledgeGraph.{
  KnowledgeGraph, new, create_entities, create_all, number_contents, user_graph,
  delete_observation_row, delete_entity_rows,
}
use adk_gateway.KnowledgeGraph.Removal.{
  has_id, delete_observations, id_set, deleted_from, deleted_at, keep_others, without, sort,
  insert_sorted, dedup, delete_entities,
}
use adk_gateway.KnowledgeGraph.Observations.{reaches, delete_observations-has_id}
use adk_gateway.KnowledgeGraph.Deletion.{IsGone, delete_entities-IsGone}

-- "ann" knows Rust, with observation 1, and "bob" knows Go, with observation 2.
abbrev two_users : KnowledgeGraph
unfolding new create_entities create_all number_contents lookup insert
two_users =
    (create_entities
      (create_entities new "ann"
        (record { name = "Rust"; entity_type = "language"; observations = "fast" ∷ [] } ∷ [])).kg
      "bob"
      (record { name = "Go"; entity_type = "language"; observations = "simple" ∷ [] } ∷ [])).kg

-- "ann" deletes observation 1, which is hers, with 2, which is bob's, and 9, which is nobody's.
others_are_deleted : (delete_observations two_users "ann" (2 ∷ 9 ∷ 1 ∷ [])).answer ≡ 1 ∷ 2 ∷ 9 ∷ []
unfolding two_users delete_observations id_set deleted_from deleted_at keep_others without sort
    insert_sorted dedup lookup insert
others_are_deleted = refl

delete_observations-has_id_example :
    ((id : ℕ)
      → has_id id (delete_observations two_users "ann" (2 ∷ 1 ∷ [])).answer
        ≡ (has_id id (2 ∷ 1 ∷ []) && reaches (2 ∷ 1 ∷ []) (user_graph two_users "ann").entities))
    × ((delete_observations two_users "ann" (2 ∷ 1 ∷ [])).statements
        ≡ map delete_observation_row (delete_observations two_users "ann" (2 ∷ 1 ∷ [])).answer)
delete_observations-has_id_example = delete_observations-has_id two_users "ann" (2 ∷ 1 ∷ [])

delete_entities-IsGone_example :
    ((name : String)
      → In name ("Rust" ∷ [])
      → contains_key name (user_graph two_users "ann").entities ≡ true
      → In name (delete_entities two_users "ann" ("Rust" ∷ [])).answer)
    × ((name : String)
        → In name (delete_entities two_users "ann" ("Rust" ∷ [])).answer
        → IsGone name (user_graph (delete_entities two_users "ann" ("Rust" ∷ [])).kg "ann"))
    × ((other : String)
        → other ≢ "ann"
        → lookup other (delete_entities two_users "ann" ("Rust" ∷ [])).kg.graphs
          ≡ lookup other two_users.graphs)
    × ((delete_entities two_users "ann" ("Rust" ∷ [])).statements
        ≡ map (delete_entity_rows "ann") (delete_entities two_users "ann" ("Rust" ∷ [])).answer)
delete_entities-IsGone_example = delete_entities-IsGone two_users "ann" ("Rust" ∷ [])
