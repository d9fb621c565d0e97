-- ===== src/KnowledgeGraph.antt =====
-- knowledge_graph.rs: what is remembered of each user, as entities with observations and relations
-- between them. The database is not modelled: an operation returns the statements that it
-- executes, in their order. Ids are `u64`.
pub mod Removal
pub mod Deletion
pub mod Observations
pub mod Examples
use adk_gateway.Common.{
  ℕ, ◌+◌, ◌%◌, String, List, [], ◌∷◌, ◌++◌, Option, none, some, not, filter, map, ◌==◌,
}
use adk_gateway.Common.Map.{Map, lookup, insert}

pub record Observation : Type 0 where
  pub id : ℕ
  pub content : String

pub record Entity : Type 0 where
  pub name : String
  pub entity_type : String
  pub observations : List Observation

pub record Relation : Type 0 where
  pub id : ℕ
  pub source : String
  pub relation_type : String
  pub target : String

pub record CreateEntityInput : Type 0 where
  pub name : String
  pub entity_type : String
  pub observations : List String

pub record CreateRelationInput : Type 0 where
  pub source : String
  pub relation_type : String
  pub target : String

-- A relation stands under its id.
pub record UserGraph : Type 0 where
  pub entities : Map Entity
  pub relations : List Relation

pub record KnowledgeGraph : Type 0 where
  pub graphs : Map UserGraph
  pub next_id : ℕ

-- The SQL statements of the `db_…` methods.
pub data Statement : Type 0 where
  upsert_entity : (user_id name entity_type : String) → Statement
  insert_observation : (id : ℕ) (user_id entity_name content : String) → Statement
  insert_relation : (id : ℕ) (user_id source relation_type target : String) → Statement
  delete_entity_rows : (user_id name : String) → Statement
  delete_observation_row : (id : ℕ) → Statement
  delete_relation_row : (id : ℕ) → Statement
  delete_user_rows : (user_id : String) → Statement

unfoldable pub new : KnowledgeGraph
new = record { graphs = []; next_id = 1 }

abbrev pub empty_graph : UserGraph
empty_graph = record { entities = []; relations = [] }

abbrev pub graph_or_empty : Option UserGraph → UserGraph
graph_or_empty none = empty_graph
graph_or_empty (some graph) = graph

-- Every operation begins with `user_graph`, which makes a graph for a user that has none.
abbrev pub user_graph : KnowledgeGraph → String → UserGraph
user_graph kg user_id = graph_or_empty (lookup user_id kg.graphs)

abbrev pub store : KnowledgeGraph → String → UserGraph → KnowledgeGraph
store kg user_id graph = record kg { graphs = insert user_id graph kg.graphs }

abbrev pub after_id : ℕ → ℕ
after_id id = (id + 1) % 18_446_744_073_709_551_616

-- The contents with the ids that `next_id` gives them, and the next one.
unfoldable pub number_contents : ℕ → List String → ℕ × List Observation
number_contents next [] = (next, [])
number_contents next (content ∷ rest) =
    let (last, later) = number_contents (after_id next) rest in
    (last, record { id = next; content = content } ∷ later)

abbrev observation_statement : String → String → Observation → Statement
observation_statement user_id name observation =
    insert_observation observation.id user_id name observation.content

-- An entity that is there keeps its type in memory; the statement writes the new one.
abbrev merged : Option Entity → CreateEntityInput → List Observation → Entity
merged none input added = record {
  name = input.name;
  entity_type = input.entity_type;
  observations = added;
}
merged (some held) input added = record held { observations = held.observations ++ added }

pub record Created : Type 0 where
  pub graph : UserGraph
  pub next_id : ℕ
  pub names : List String
  pub statements : List Statement

unfoldable pub create_all : String → UserGraph → ℕ → List CreateEntityInput → Created
unfolding number_contents
create_all user_id graph next [] = record {
  graph = graph;
  next_id = next;
  names = [];
  statements = [];
}
create_all user_id graph next (input ∷ rest) =
    let (after, added) = number_contents next input.observations in
    let entity = merged (lookup input.name graph.entities) input added in
    let held = record graph { entities = insert input.name entity graph.entities } in
    let later = create_all user_id held after rest in
    record later {
      names = input.name ∷ later.names;
      statements =
          upsert_entity user_id input.name input.entity_type
          ∷ (map (observation_statement user_id input.name) added ++ later.statements);
    }

pub record Outcome {ℓ} (A : Type ℓ) : Type ℓ where
  pub kg : KnowledgeGraph
  pub answer : A
  pub statements : List Statement

unfoldable pub create_entities :
    KnowledgeGraph → String → List CreateEntityInput → Outcome (List String)
unfolding create_all
create_entities kg user_id inputs =
    let made = create_all user_id (user_graph kg user_id) kg.next_id inputs in
    record {
      kg = record (store kg user_id made.graph) { next_id = made.next_id };
      answer = made.names;
      statements = made.statements;
    }

abbrev pub remove_relation : ℕ → List Relation → List Relation
remove_relation id = filter (λ relation. not (relation.id == id))

abbrev insert_relation_of : Relation → List Relation → List Relation
insert_relation_of relation held = remove_relation relation.id held ++ relation ∷ []

pub record Related : Type 0 where
  pub relations : List Relation
  pub next_id : ℕ
  pub ids : List ℕ
  pub statements : List Statement

unfoldable pub relate_all : String → List Relation → ℕ → List CreateRelationInput → Related
relate_all user_id held next [] = record {
  relations = held;
  next_id = next;
  ids = [];
  statements = [];
}
relate_all user_id held next (input ∷ rest) =
    let relation : Relation = record {
      id = next;
      source = input.source;
      relation_type = input.relation_type;
      target = input.target;
    } in
    let later = relate_all user_id (insert_relation_of relation held) (after_id next) rest in
    record later {
      ids = next ∷ later.ids;
      statements =
          insert_relation next user_id input.source input.relation_type input.target
          ∷ later.statements;
    }

unfoldable pub create_relations :
    KnowledgeGraph → String → List CreateRelationInput → Outcome (List ℕ)
unfolding relate_all
create_relations kg user_id inputs =
    let graph = user_graph kg user_id in
    let made = relate_all user_id graph.relations kg.next_id inputs in
    record {
      kg = record (store kg user_id (record graph { relations = made.relations })) {
        next_id = made.next_id;
      };
      answer = made.ids;
      statements = made.statements;
    }

unfoldable pub add_observations :
    KnowledgeGraph → String → String → List String → Outcome (Option (List ℕ))
unfolding number_contents
add_observations kg user_id name contents =
    let graph = user_graph kg user_id in
    elim (lookup name graph.entities) [
      | none ↦ record { kg = store kg user_id graph; answer = none; statements = [] }
      | some entity ↦
          let (after, added) = number_contents kg.next_id contents in
          let grown = record entity { observations = entity.observations ++ added } in
          record {
            kg =
                record (store kg user_id
                  (record graph { entities = insert name grown graph.entities })) {
                    next_id = after;
                  };
            answer = some (map (λ observation. observation.id) added);
            statements = map (observation_statement user_id name) added;
          }
    ]
