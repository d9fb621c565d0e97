-- ===== src/KnowledgeGraph/Observations.antt =====
-- Which observations knowledge_graph.rs says it has deleted, and deletes from its database.
use adk_gateway.Common.{
  ℕ, ◌-◌, String, List, [], ◌∷◌, Bool, true, false, not, ◌&&◌, ◌||◌, any, filter, length, map, ◌==◌,
  ltb, ◌≡◌, refl, inl, inr, arith, Bool-cases, length-filter-le, any-append,
}
use adk_gateway.Common.Map.{Map}
use adk_gateway.KnowledgeGraph.{
  Observation, Entity, KnowledgeGraph, user_graph, delete_observation_row,
}
use adk_gateway.KnowledgeGraph.Removal.{
  has_id, id_set, keep_others, observes, deleted_at, deleted_from, insert_sorted, sort, begins_with,
  dedup, delete_observations,
}

has_id-id_set : (id : ℕ) (ids : List ℕ) → has_id id (id_set ids) ≡ has_id id ids
unfolding id_set
has_id-id_set id [] = refl
has_id-id_set id (first ∷ rest) = ground (arith, has_id-id_set id rest, has_id-id_set first rest)

has_id-insert_sorted :
    (id new : ℕ) (ids : List ℕ) → has_id id (insert_sorted new ids) ≡ (new == id || has_id id ids)
unfolding insert_sorted
has_id-insert_sorted id new [] = refl
has_id-insert_sorted id new (first ∷ rest) = ground (arith, has_id-insert_sorted id new rest)

has_id-sort : (id : ℕ) (ids : List ℕ) → has_id id (sort ids) ≡ has_id id ids
unfolding sort
has_id-sort id [] = refl
has_id-sort id (first ∷ rest) =
    ground (arith, has_id-insert_sorted id first (sort rest), has_id-sort id rest)

begins_with-has_id : (id : ℕ) (ids : List ℕ) → begins_with id ids ≡ true → has_id id ids ≡ true
begins_with-has_id id [] h = ground arith
begins_with-has_id id (first ∷ rest) h = ground arith

has_id-dedup : (id : ℕ) (ids : List ℕ) → has_id id (dedup ids) ≡ has_id id ids
unfolding dedup
has_id-dedup id [] = refl
has_id-dedup id (first ∷ rest) =
    ground (arith, has_id-dedup id rest, begins_with-has_id first (dedup rest))

-- Some observation of the list has one of the ids.
abbrev pub any_of : List ℕ → List Observation → Bool
any_of ids = any λ observation. has_id observation.id ids

abbrev pub reaches : List ℕ → Map Entity → Bool
reaches ids = any λ entry. any_of ids entry.1.observations

any_of-id_set :
    (ids : List ℕ) (observations : List Observation)
    → any_of (id_set ids) observations ≡ any_of ids observations
any_of-id_set ids [] = refl
any_of-id_set ids (first ∷ rest) =
    ground (arith, has_id-id_set first.id ids, any_of-id_set ids rest)

reaches-id_set :
    (ids : List ℕ) (entities : Map Entity) → reaches (id_set ids) entities ≡ reaches ids entities
reaches-id_set ids [] = refl
reaches-id_set ids ((key, entity) ∷ rest) =
    ground (arith, any_of-id_set ids entity.observations, reaches-id_set ids rest)

-- At an entity with one of the ids, the loop adds all of them to its answer, whatever they are.
observes-keep_others :
    (ids : List ℕ) (observations : List Observation) (id : ℕ)
    → has_id id ids ≡ true
    → observes (keep_others ids observations) id ≡ false
unfolding keep_others
observes-keep_others ids [] id h = refl
observes-keep_others ids (first ∷ rest) id h = elim (Bool-cases (has_id first.id ids)) [
  | inl e ↦ ground (arith, observes-keep_others ids rest id h)
  | inr e ↦ ground (arith, observes-keep_others ids rest id h)
]

filter_all :
    (keep : ℕ → Bool) (ids : List ℕ)
    → ((id : ℕ) → has_id id ids ≡ true → keep id ≡ true)
    → filter keep ids ≡ ids
filter_all keep [] h = refl
filter_all keep (first ∷ rest) h =
    ground (arith, h first, filter_all keep rest (λ id e. ground (arith, h id)))

any_of-shrinks :
    (ids : List ℕ) (observations : List Observation)
    → ltb 0 (length observations - length (keep_others ids observations)) ≡ any_of ids observations
unfolding keep_others
any_of-shrinks ids [] = refl
any_of-shrinks ids (first ∷ rest) = ground (
  arith,
  any_of-shrinks ids rest,
  length-filter-le (λ observation. not (has_id observation.id ids)) rest,
)

has_id-deleted_at :
    (id : ℕ) (ids : List ℕ) (entity : Entity)
    → has_id id (deleted_at ids entity) ≡ (has_id id ids && any_of ids entity.observations)
unfolding deleted_at
has_id-deleted_at id ids entity =
    let all_of =
      filter_all (λ i. not (observes (keep_others ids entity.observations) i)) ids
        (λ i e. ground (arith, observes-keep_others ids entity.observations i e)) in
    elim (Bool-cases (any_of ids entity.observations)) [
      | inl e ↦ rw (any_of-shrinks ids entity.observations, e, all_of) (ground arith)
      | inr e ↦ rw (any_of-shrinks ids entity.observations, e) (ground arith)
    ]

has_id-deleted_from :
    (id : ℕ) (ids : List ℕ) (entities : Map Entity)
    → has_id id (deleted_from ids entities) ≡ (has_id id ids && reaches ids entities)
unfolding deleted_from
has_id-deleted_from id ids [] = ground arith
has_id-deleted_from id ids ((key, entity) ∷ rest) = ground (
  arith,
  any-append (λ other. other == id) (deleted_at ids entity) (deleted_from ids rest),
  has_id-deleted_at id ids entity,
  has_id-deleted_from id ids rest,
)

answered :
    (kg : KnowledgeGraph) (user_id : String) (ids : List ℕ) (id : ℕ)
    → has_id id (delete_observations kg user_id ids).answer
      ≡ (has_id id ids && reaches ids (user_graph kg user_id).entities)
unfolding delete_observations
answered kg user_id ids id =
    let entities = (user_graph kg user_id).entities in
    ground (
      arith,
      has_id-dedup id (sort (deleted_from (id_set ids) entities)),
      has_id-sort id (deleted_from (id_set ids) entities),
      has_id-deleted_from id (id_set ids) entities,
      has_id-id_set id ids,
      reaches-id_set ids entities,
    )

-- delete_observations answers, and deletes the rows of, either none of the ids that it is given or all
-- of them: all as soon as one is the id of an observation of that user, whether or not the others are
-- the ids of observations of that user.
pub delete_observations-has_id :
    (kg : KnowledgeGraph) (user_id : String) (ids : List ℕ)
    → ((id : ℕ)
        → has_id id (delete_observations kg user_id ids).answer
          ≡ (has_id id ids && reaches ids (user_graph kg user_id).entities))
      × ((delete_observations kg user_id ids).statements
          ≡ map delete_observation_row (delete_observations kg user_id ids).answer)
unfolding delete_observations
delete_observations-has_id kg user_id ids = (answered kg user_id ids, refl)
