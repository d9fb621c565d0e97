-- ===== src/Registry/Examples.antt =====
-- Runs of the registry (agent_registry.rs) on a file system held in memory.
use adk_gateway.Common.{
  String, List, [], ◌∷◌, none, some, Bool, true, false, not, if◌then◌else◌, str_eq, ◌≡◌, refl, ◌↔◌,
}
use adk_gateway.Common.Map.{Map, lookup, insert, remove, lookup-insert, lookup-remove}
use adk_gateway.AgentConfig.{AgentConfig, llm, created, starting, running, stopped}
use adk_gateway.Registry.{
  Storage, AgentRecord, Entry, file, cannot_delete, Registry, new, ok, err, new_record,
  create_agent, transition, delete,
}
use adk_gateway.Registry.Keyed.{creates, transitions, deletes, perform, run}
use adk_gateway.Registry.Synced.{Synced, perform-Synced}
use adk_gateway.Registry.Lifecycle.{◌⟶◌, transition_ok_iff, AtRest, delete_lem}

-- A disk is its files, and whether it accepts writes.
abbrev pub MemoryDisk : Type 0
MemoryDisk = Bool × Map AgentRecord

abbrev write_memory : String → AgentRecord → MemoryDisk → MemoryDisk × Bool
write_memory id rec (accepts, m) = ((accepts, if accepts then insert id rec m else m), accepts)

abbrev remove_memory : String → MemoryDisk → MemoryDisk × Bool
remove_memory id (accepts, m) = ((accepts, remove id m), true)

abbrev files : Map AgentRecord → List Entry
files [] = []
files ((id, rec) ∷ m) = file rec ∷ files m

pub write_memory_lem :
    (id j : String) (rec : AgentRecord) (d : MemoryDisk)
    → (write_memory id rec d).1 ≡ true
    → lookup j (write_memory id rec d).0.1 ≡ (if str_eq id j then some rec else lookup j d.1)
write_memory_lem id j rec (true, m) h = lookup-insert id j rec m
write_memory_lem id j rec (false, m) h = cc

pub remove_memory_lem :
    (id j : String) (d : MemoryDisk)
    → lookup j (remove_memory id d).0.1 ≡ (if str_eq id j then none else lookup j d.1)
remove_memory_lem id j (b, m) = lookup-remove id j m

abbrev pub memory_storage : Storage
memory_storage = record {
  Disk = MemoryDisk;
  write = write_memory;
  remove_file = remove_memory;
  archive_workspace = λ id d. d;
  read_dir = λ d. some (some (files d.1));
  read_json = λ id d. lookup id d.1;
  plain = λ id. not (str_eq id "registry");
  read_json-write = λ id j rec d p q w. write_memory_lem id j rec d w;
  read_json-remove_file = λ id j d p q w. remove_memory_lem id j d;
  read_json-archive_workspace = λ id j d p q. refl;
}

abbrev pub empty_disk : MemoryDisk
empty_disk = (true, [])

abbrev pub config_of : String → List String → AgentConfig
config_of id allow = record {
  id = id;
  name = "Agent";
  description = "test agent";
  agent_type = llm;
  model = "test/model";
  api_key_env = "TEST_KEY";
  instruction = "do stuff";
  tools = [];
  action_nodes = [];
  workflow_edges = [];
  sub_agents = [];
  role = record { allow = allow; deny = [] };
  channel_bindings = [];
  auto_start = false;
  temperature = none;
  max_output_tokens = none;
  model_override = none;
}

abbrev alpha : AgentConfig
alpha = config_of "alpha" []

abbrev with_alpha : Registry MemoryDisk
with_alpha = record {
  agents = ("alpha", new_record alpha 5) ∷ [];
  system_agent_id = none;
  disk = (true, ("alpha", new_record alpha 5) ∷ []);
}

-- As a start from its directory leaves a registry whose agent has stopped.
abbrev with_resting : Registry MemoryDisk
with_resting = record {
  agents = ("alpha", record (new_record alpha 5) { state = stopped }) ∷ [];
  system_agent_id = none;
  disk = (true, ("alpha", record (new_record alpha 5) { state = stopped }) ∷ []);
}

abbrev full_disk : Registry MemoryDisk
full_disk = record with_alpha { disk = (false, ("alpha", new_record alpha 5) ∷ []) }

life :
    (run memory_storage (new memory_storage empty_disk) (
      creates alpha 5 ∷ transitions "alpha" starting 6 ∷ transitions "alpha" running 7 ∷ [])).agents
    ≡ ("alpha", record (new_record alpha 5) { state = running; updated_at = 7 }) ∷ []
unfolding run perform new create_agent transition lookup insert
life = refl

deleting_a_running_agent :
    (delete memory_storage with_alpha "alpha").1 ≡ err (cannot_delete "alpha" created)
unfolding delete lookup
deleting_a_running_agent = refl

perform-Synced_example :
    Synced memory_storage (perform memory_storage with_resting (deletes "alpha")).0
unfolding perform delete lookup
perform-Synced_example =
    perform-Synced memory_storage with_resting (deletes "alpha") (refl, refl) refl
      (λ id plain. refl)

transition_ok_iff_example :
    ((transition memory_storage with_alpha "alpha" starting 6).1 ≡ ok tt) ↔ (
      (entry : AgentRecord) × (lookup "alpha" with_alpha.agents ≡ some entry)
      × (entry.state ⟶ starting))
transition_ok_iff_example =
    transition_ok_iff memory_storage with_alpha "alpha" starting 6 (λ rec. refl)

abbrev failed_alpha : AgentRecord
failed_alpha = record (new_record alpha 5) { state = stopped }

abbrev resting : Registry MemoryDisk
resting = record with_alpha { agents = ("alpha", failed_alpha) ∷ [] }

delete_lem_example :
    (((delete memory_storage resting "alpha").1 ≡ ok failed_alpha)
      ↔ (lookup "alpha" resting.agents ≡ some failed_alpha) × AtRest failed_alpha.state)
    × ((delete memory_storage resting "alpha").1 ≡ ok failed_alpha
        → (j : String)
        → lookup j (delete memory_storage resting "alpha").0.agents
          ≡ (if str_eq "alpha" j then none else lookup j resting.agents))
delete_lem_example = delete_lem memory_storage resting "alpha" failed_alpha
