-- ===== src/Registry/Files.antt =====
-- What agent_registry.rs uses of the file system, under its persist directory. `write` is the whole
-- of `persist` (create the directory, serialize, write the file); its flag says whether it succeeded.
use adk_gateway.Common.{ℕ, String, List, Option, none, some, Bool, true, ◌≡◌, if◌then◌else◌, str_eq}
use adk_gateway.AgentConfig.{AgentConfig, LifecycleState}

pub record AgentRecord : Type 0 where
  pub config : AgentConfig
  pub state : LifecycleState
  pub port : Option ℕ
  pub pid : Option ℕ
  pub created_at : ℕ
  pub updated_at : ℕ

-- One entry of the persist directory, as `load_from_disk` meets it: a `.json` file that parses, one
-- that does not, an entry or a file that cannot be read, and any other file.
pub data Entry : Type 0 where
  file : AgentRecord → Entry
  unparsable unreadable ignored : Entry

-- `read_json` says what the file `{id}.json` holds, in the laws; the program itself reads whole
-- directories. A write or a removal that fails may have changed the disk in any way. The program
-- takes any text for an id; the laws are about ids that are `plain`: names of a file of their own, not
-- paths, and not the name of the persist directory, which stands beside the agents' directories and
-- would be archived with its files as that agent's.
pub record Storage : Type 1 where
  pub Disk : Type 0
  pub write : String → AgentRecord → Disk → Disk × Bool
  -- The flag says that the file is gone, or was never there.
  pub remove_file : String → Disk → Disk × Bool
  pub archive_workspace : String → Disk → Disk
  -- `none` where the directory does not exist, `some none` where it cannot be read.
  pub read_dir : Disk → Option (Option (List Entry))
  pub read_json : String → Disk → Option AgentRecord
  pub plain : String → Bool
  pub read_json-write :
      (id j : String) (rec : AgentRecord) (d : Disk)
      → plain id ≡ true
      → plain j ≡ true
      → (write id rec d).1 ≡ true
      → read_json j (write id rec d).0 ≡ (if str_eq id j then some rec else read_json j d)
  pub read_json-remove_file :
      (id j : String) (d : Disk)
      → plain id ≡ true
      → plain j ≡ true
      → (remove_file id d).1 ≡ true
      → read_json j (remove_file id d).0 ≡ (if str_eq id j then none else read_json j d)
  pub read_json-archive_workspace :
      (id j : String) (d : Disk)
      → plain id ≡ true
      → plain j ≡ true
      → read_json j (archive_workspace id d) ≡ read_json j d
