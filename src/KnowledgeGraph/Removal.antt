-- ===== src/KnowledgeGraph/Removal.antt =====
-- The delete and read operations of knowledge_graph.rs.
use adk_gateway.Common.{
  ℕ, ◌-◌, String, List, [], ◌∷◌, ◌++◌, Bool, true, false, not, ◌||◌, any, filter, map, length,
  if◌then◌else◌, str_eq, ◌==◌, leb, ltb,
}
use adk_gateway.Common.Map.{Map, remove, contains_key, values, keys}
use adk_gateway.KnowledgeGraph.{
  Observation, Entity, Relation, UserGraph, KnowledgeGraph, delete_entity_rows,
  delete_observation_row, delete_relation_row, delete_user_rows, user_graph, store, Outcome,
  remove_relation,
}

abbrev pub touches : String → Relation → Bool
touches name relation = str_eq relation.source name || str_eq relation.target name

abbrev pub remove_relations : List ℕ → List Relation → List Relation
remove_relations [] held = held
remove_relations (id ∷ ids) held = remove_relations ids (remove_relation id held)

-- An entity with the relations from it and to it.
unfoldable pub delete_entity : String → UserGraph → UserGraph
delete_entity name graph = record {
  entities = remove name graph.entities;
  relations =
      remove_relations (map (λ relation. relation.id) (filter (touches name) graph.relations))
        graph.relations;
}

pub record Deleted : Type 0 where
  pub graph : UserGraph
  pub names : List String

unfoldable pub delete_all : UserGraph → List String → Deleted
unfolding delete_entity
delete_all graph [] = record { graph = graph; names = [] }
delete_all graph (name ∷ rest) =
    let found = contains_key name graph.entities in
    let later = delete_all (if found then delete_entity name graph else graph) rest in
    record later { names = if found then name ∷ later.names else later.names }

unfoldable pub delete_entities : KnowledgeGraph → String → List String → Outcome (List String)
unfolding delete_all
delete_entities kg user_id names =
    let gone = delete_all (user_graph kg user_id) names in
    record {
      kg = store kg user_id gone.graph;
      answer = gone.names;
      statements = map (delete_entity_rows user_id) gone.names;
    }

abbrev pub has_id : ℕ → List ℕ → Bool
has_id id = any λ other. other == id

-- `HashSet::from_iter`, in some order.
unfoldable pub id_set : List ℕ → List ℕ
id_set [] = []
id_set (id ∷ rest) = let later = id_set rest in if has_id id later then later else id ∷ later

unfoldable pub keep_others : List ℕ → List Observation → List Observation
keep_others ids observations = filter (λ observation. not (has_id observation.id ids)) observations

abbrev pub observes : List Observation → ℕ → Bool
observes observations id = any (λ observation. observation.id == id) observations

-- The ids that the loop over the entities adds to its answer at one of them.
unfoldable pub deleted_at : List ℕ → Entity → List ℕ
unfolding keep_others
deleted_at ids entity =
    let left = keep_others ids entity.observations in
    if ltb 0 (length entity.observations - length left)
    then filter (λ id. not (observes left id)) ids
    else []

unfoldable pub deleted_from : List ℕ → Map Entity → List ℕ
unfolding deleted_at
deleted_from ids [] = []
deleted_from ids ((key, entity) ∷ rest) = deleted_at ids entity ++ deleted_from ids rest

unfoldable pub without : List ℕ → Map Entity → Map Entity
unfolding keep_others
without ids [] = []
without ids ((key, entity) ∷ rest) =
    (key, record entity { observations = keep_others ids entity.observations }) ∷ without ids rest

-- `sort` and `dedup`.
unfoldable pub insert_sorted : ℕ → List ℕ → List ℕ
insert_sorted id [] = id ∷ []
insert_sorted id (held ∷ rest) =
    let later = insert_sorted id rest in if leb id held then id ∷ held ∷ rest else held ∷ later

unfoldable pub sort : List ℕ → List ℕ
unfolding insert_sorted
sort [] = []
sort (id ∷ rest) = insert_sorted id (sort rest)

abbrev pub begins_with : ℕ → List ℕ → Bool
begins_with id [] = false
begins_with id (held ∷ rest) = held == id

unfoldable pub dedup : List ℕ → List ℕ
dedup [] = []
dedup (id ∷ rest) = let later = dedup rest in if begins_with id later then later else id ∷ later

unfoldable pub delete_observations : KnowledgeGraph → String → List ℕ → Outcome (List ℕ)
unfolding id_set deleted_from without sort dedup
delete_observations kg user_id observation_ids =
    let graph = user_graph kg user_id in
    let ids = id_set observation_ids in
    let deleted = dedup (sort (deleted_from ids graph.entities)) in
    record {
      kg = store kg user_id (record graph { entities = without ids graph.entities });
      answer = deleted;
      statements = map delete_observation_row deleted;
    }

abbrev has_relation : ℕ → List Relation → Bool
has_relation id = any λ relation. relation.id == id

pub record Unrelated : Type 0 where
  pub relations : List Relation
  pub ids : List ℕ

unfoldable pub unrelate_all : List Relation → List ℕ → Unrelated
unrelate_all held [] = record { relations = held; ids = [] }
unrelate_all held (id ∷ rest) =
    let later = unrelate_all (remove_relation id held) rest in
    record later { ids = if has_relation id held then id ∷ later.ids else later.ids }

unfoldable pub delete_relations : KnowledgeGraph → String → List ℕ → Outcome (List ℕ)
unfolding unrelate_all
delete_relations kg user_id relation_ids =
    let graph = user_graph kg user_id in
    let gone = unrelate_all graph.relations relation_ids in
    record {
      kg = store kg user_id (record graph { relations = gone.relations });
      answer = gone.ids;
      statements = map delete_relation_row gone.ids;
    }

unfoldable pub delete_user_graph : KnowledgeGraph → String → Outcome Bool
delete_user_graph kg user_id =
    if contains_key user_id kg.graphs
    then record {
      kg = record kg { graphs = remove user_id kg.graphs };
      answer = true;
      statements = delete_user_rows user_id ∷ [];
    }
    else record { kg = kg; answer = false; statements = [] }

unfoldable pub read_graph : KnowledgeGraph → String → Outcome (List Entity × List Relation)
read_graph kg user_id =
    let graph = user_graph kg user_id in
    record {
      kg = store kg user_id graph;
      answer = (values graph.entities, graph.relations);
      statements = [];
    }

abbrev pub user_ids : KnowledgeGraph → List String
user_ids kg = keys kg.graphs
