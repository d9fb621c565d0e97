-- ===== src/KnowledgeGraph/Deletion.antt =====
-- What is left of a user's graph when delete_entities of knowledge_graph.rs has answered.
use adk_gateway.Common.{
  ℕ, String, List, [], ◌∷◌, none, Bool, true, false, not, In, any, filter, map, str_eq, ◌≡◌, ◌≢◌,
  refl, inl, inr, arith, Bool-cases, eq_iff, ◌∙◌, sym,
}
use adk_gateway.Common.Map.{lookup, contains_key, lookup-remove, lookup-insert, lookup-insert_self}
use adk_gateway.KnowledgeGraph.{
  Relation, UserGraph, KnowledgeGraph, user_graph, remove_relation, delete_entity_rows,
}
use adk_gateway.KnowledgeGraph.Removal.{
  touches, remove_relations, delete_entity, delete_all, delete_entities, has_id,
}

abbrev kept_of : List ℕ → List Relation → List Relation
kept_of ids = filter λ relation. not (has_id relation.id ids)

kept_of-remove_relation :
    (id : ℕ) (ids : List ℕ) (held : List Relation)
    → kept_of ids (remove_relation id held) ≡ kept_of (id ∷ ids) held
kept_of-remove_relation id ids [] = refl
kept_of-remove_relation id ids (first ∷ rest) = ground (arith, kept_of-remove_relation id ids rest)

remove_relations-kept_of :
    (ids : List ℕ) (held : List Relation) → remove_relations ids held ≡ kept_of ids held
remove_relations-kept_of [] [] = refl
remove_relations-kept_of [] (first ∷ rest) = ground (arith, remove_relations-kept_of [] rest)
remove_relations-kept_of (id ∷ ids) held =
    remove_relations-kept_of ids (remove_relation id held) ∙ kept_of-remove_relation id ids held

has_id-filter :
    (test : Relation → Bool) (held : List Relation) (relation : Relation)
    → In relation held
    → test relation ≡ true
    → has_id relation.id (map (λ r. r.id) (filter test held)) ≡ true
has_id-filter test [] relation member passes = ground arith
has_id-filter test (first ∷ rest) relation (inl same) passes = ground arith
has_id-filter test (first ∷ rest) relation (inr member) passes =
    ground (arith, has_id-filter test rest relation member passes)

none_left :
    (test : Relation → Bool) (ids : List ℕ) (held : List Relation)
    → ((r : Relation) → In r held → test r ≡ true → has_id r.id ids ≡ true)
    → any test (kept_of ids held) ≡ false
none_left test ids [] h = refl
none_left test ids (first ∷ rest) h =
    let later = none_left test ids rest (λ r member. h r (inr member)) in
    elim (Bool-cases (test first)) [
      | inl e ↦ ground (arith, h first (inl refl) e)
      | inr e ↦ ground arith
    ]

any-kept_of :
    (test : Relation → Bool) (ids : List ℕ) (held : List Relation)
    → any test held ≡ false
    → any test (kept_of ids held) ≡ false
any-kept_of test ids [] h = refl
any-kept_of test ids (first ∷ rest) h = ground (arith, any-kept_of test ids rest)

-- No entity has the name, and no relation begins or ends at it.
pub record IsGone (name : String) (graph : UserGraph) : Type 0 where
  pub entity : lookup name graph.entities ≡ none
  pub relations : any (touches name) graph.relations ≡ false

delete_entity-IsGone : (name : String) (graph : UserGraph) → IsGone name (delete_entity name graph)
unfolding delete_entity
delete_entity-IsGone name graph = record {
  entity = ground (arith, lookup-remove name name graph.entities, eq_iff name name);
  relations =
      rw
        (remove_relations-kept_of (map (λ r. r.id) (filter (touches name) graph.relations))
          graph.relations)
        (none_left (touches name) _ graph.relations (has_id-filter (touches name) graph.relations));
}

delete_entity-keeps :
    (name other : String) (graph : UserGraph)
    → IsGone name graph
    → IsGone name (delete_entity other graph)
unfolding delete_entity
delete_entity-keeps name other graph v = record {
  entity = ground (arith, lookup-remove other name graph.entities, v.entity);
  relations =
      rw
        (remove_relations-kept_of (map (λ r. r.id) (filter (touches other) graph.relations))
          graph.relations)
        (any-kept_of (touches name) _ graph.relations v.relations);
}

delete_all-keeps :
    (name : String) (graph : UserGraph) (names : List String)
    → IsGone name graph
    → IsGone name (delete_all graph names).graph
unfolding delete_all
delete_all-keeps name graph [] v = v
delete_all-keeps name graph (other ∷ rest) v =
    elim (Bool-cases (contains_key other graph.entities)) [
      | inl e ↦ rw e (
          delete_all-keeps name (delete_entity other graph) rest
            (delete_entity-keeps name other graph v))
      | inr e ↦ rw e (delete_all-keeps name graph rest v)
    ]

delete_all-IsGone :
    (graph : UserGraph) (names : List String) (name : String)
    → In name (delete_all graph names).names
    → IsGone name (delete_all graph names).graph
unfolding delete_all
delete_all-IsGone graph [] name h = absurd h
delete_all-IsGone graph (other ∷ rest) name h =
    elim (Bool-cases (contains_key other graph.entities)) [
      | inl e ↦
          let split : In name (other ∷ (delete_all (delete_entity other graph) rest).names) =
            rw e at h in
          elim split [
            | inl same ↦
                rw (e, same)
                  (delete_all-keeps other (delete_entity other graph) rest
                    (delete_entity-IsGone other graph))
            | inr member ↦ rw e (delete_all-IsGone (delete_entity other graph) rest name member)
          ]
      | inr e ↦ rw e (delete_all-IsGone graph rest name (rw e at h))
    ]

delete_all-In :
    (graph : UserGraph) (names : List String) (name : String)
    → In name names
    → contains_key name graph.entities ≡ true
    → In name (delete_all graph names).names
unfolding delete_all
delete_all-In graph [] name member held = absurd member
delete_all-In graph (other ∷ rest) name (inl same) held =
    let found : contains_key other graph.entities ≡ true = rw same at held in rw found (inl same)
delete_all-In graph (other ∷ rest) name (inr member) held =
    elim (Bool-cases (contains_key other graph.entities)) [
      | inl e ↦ elim (Bool-cases (str_eq other name)) [
        | inl f ↦ rw e (inl (sym ((eq_iff other name).0 f)))
        | inr f ↦
            let left : contains_key name (delete_entity other graph).entities ≡ true =
              unfold delete_entity in ground (arith, lookup-remove other name graph.entities) in
            rw e (inr (delete_all-In (delete_entity other graph) rest name member left))
      ]
      | inr e ↦ rw e (delete_all-In graph rest name member held)
    ]

-- delete_entities: it answers every name that it is given and that is the user's entity; every name
-- that it answers is gone from the user's graph, as an entity and from both
-- ends of every relation; no other user's graph changes; and the rows of exactly those names are
-- deleted from the database, under that user.
pub delete_entities-IsGone :
    (kg : KnowledgeGraph) (user_id : String) (names : List String)
    → ((name : String)
        → In name names
        → contains_key name (user_graph kg user_id).entities ≡ true
        → In name (delete_entities kg user_id names).answer)
      × ((name : String)
          → In name (delete_entities kg user_id names).answer
          → IsGone name (user_graph (delete_entities kg user_id names).kg user_id))
      × ((other : String)
          → other ≢ user_id
          → lookup other (delete_entities kg user_id names).kg.graphs ≡ lookup other kg.graphs)
      × ((delete_entities kg user_id names).statements
          ≡ map (delete_entity_rows user_id) (delete_entities kg user_id names).answer)
unfolding delete_entities
delete_entities-IsGone kg user_id names = (
  delete_all-In (user_graph kg user_id) names,
  λ name h.
      rw (lookup-insert_self user_id (delete_all (user_graph kg user_id) names).graph kg.graphs)
        (delete_all-IsGone (user_graph kg user_id) names name h),
  λ other ne. ground (
    arith,
    lookup-insert user_id other (delete_all (user_graph kg user_id) names).graph kg.graphs,
    eq_iff user_id other,
  ),
  refl,
)
