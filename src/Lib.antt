-- ===== src/Lib.antt =====
-- adk-gateway puts agents behind chat channels. At the start the gateway reads its agents from
-- disk, gives them roles and brings the system agent up. A message that a channel delivers is first
-- checked for access (by the policy of the channel, and by pairing; src/gateway.rs; those of the
-- scheduler are not) and then routed to an agent. The roles of the agents and the roles and scopes
-- of the users are asked about tools, and a rate limiter counts the tool calls of a request; the
-- service for approvals by the user stands by itself. The tools that a model may call are shown to it
-- with schemas that its provider takes. The answer goes back to the channel, edited in place while it
-- grows or cut into chunks. Long jobs are handed by the delegator to the queue of the coding agents, a
-- monitor watches the parts, channels reconnect with a backoff, agents run as child processes on
-- ports of their own, and a shutdown waits for the messages that are being handled.
--
-- The files, by the part of the program that each models. A file `X.antt` holds the state, as a record,
-- and one function per operation, named as in the source; the files under `X/` hold its proofs, and
-- `X/Examples.antt` the theorems at concrete inputs.
--   Common       the names and lemmas that the parts share: tests, lists, maps with text keys
--   Json         the JSON values that routing rules and tool schemas hold
--   AgentConfig  src/agent_config.rs and the model choice of src/config.rs: the record of an agent
--   Registry     src/agent_registry.rs: AgentRegistry with create_agent, register_system_agent,
--                transition, force_state, update_config, delete, load_from_disk
--   Rbac         src/rbac_bridge.rs: roles, register_agent with the stripping of system tools,
--                check_tool, check_delegation, remove_agent, rebuild_from_registry
--   Boot         src/gateway_state.rs: the part of the start that loads the registry, starts or stops
--                the agents and rebuilds the roles; it joins Registry and Rbac
--   Router       src/router.rs and src/channel/mod.rs: the bindings and resolve_agent in five phases
--   TaskQueue    src/coding_agent/queue.rs: enqueue, try_dequeue, complete_task, cancel_task, and in
--                TaskQueue/Interleaving the same operations as steps of concurrent callers
--   Pairing      src/pairing.rs: generate_code, validate_code, record_failure, restore_paired_users,
--                cleanup; in Pairing/Concurrent the same as steps of concurrent callers
--   Access       src/access_control.rs: AccessControlBridge with new, rebuild, mark_paired,
--                check_message_access and wrap_tool_check; it reads the messages of Router
--   Health       src/health_monitor.rs: record_check
--   RateLimit    src/rate_limiter.rs: record_invocation, window_count, reset
--   Approval     src/tool_approval.rs: check_requires_approval and matches_pattern, request_approval,
--                handle_callback, expire_stale and the timeout task; Approval/Callbacks
--                has the data of the buttons and parse_callback_data
--   Reconnect    src/reconnect.rs: next_delay, reset, channel_status
--   Shutdown     src/shutdown.rs: acquire, the guards, initiate_shutdown and initiate_restart; in
--                Shutdown/Interleaving as atomic steps of concurrent callers
--   Processes    src/process_manager.rs: allocate_port, spawn, stop, health_check; in
--                Processes/Concurrent the operations as steps of concurrent callers
--   Delivery     src/delivery.rs with the loops of src/gateway.rs over the chunks: on_partial and
--                on_complete of both strategies, select_strategy; Delivery/Split has split_message
--   Schema       src/schema_sanitizer.rs: the sanitizers for Gemini (Schema/Gemini) and OpenAI
--                (Schema/OpenAi), over the values of Json, and the choice of src/gateway.rs
--   Coding       src/coding_agent/registry.rs; under it Costs for cost.rs, Paths for workspace.rs and
--                Delegator for delegator.rs, which hands tasks to TaskQueue
--   KnowledgeGraph  src/knowledge_graph.rs: the operations that create (KnowledgeGraph) and delete
--                (KnowledgeGraph/Removal), with the SQL statements that they execute
--   MultiUser    src/multi_user.rs: AgentRouter and MultiUserManager
--
-- How code and model correspond. A method that changes `self` is a function from the state to the new
-- state, paired with its result; an error is a value. A `HashMap` or `DashMap` is an association list
-- in which a key stands once, a `HashSet` a list, a `VecDeque` a list with its front first. Times and
-- random ids are arguments, and one call reads the clock once. A lock is never poisoned, so the
-- branches for a poisoned lock are left out; an operation under one lock is one step. An operation
-- that takes several locks, or none, is a function for a caller whom nobody interrupts: where the
-- source may be interrupted to an effect (`acquire`, `try_dequeue`, `validate_code`, `spawn`), the
-- modules Interleaving and Concurrent have its steps besides. A semaphore is
-- the number of its permits. Log lines are left out. A `u32` or `usize` counter is a natural number
-- where only 2^32 calls could overflow it, and the file says so; a cast to `u32` is written out.
--
-- Loops are recursion on the list that they walk, but for three. The rounds of allocate_port are counted
-- by the code itself. The loop of split_message runs on fuel, one more than the bytes of the text,
-- which is enough since every round takes a byte at least; the digits of a number run on fuel of
-- their number and one. The drain of a shutdown is a step that waits.
--
-- The file system under the registry is a parameter: the record Storage of Registry/Files, with the
-- operations that the code calls and, as laws, what they do to the file of an agent whose id is the
-- name of a file of its own; the examples meet
-- the laws with a disk in memory.
--
-- The delegator's surroundings are a parameter too, the record Environment of Coding: the canonical
-- form of a path, the lower case of a text and two operations on floats. What a channel answers to a
-- send or an edit is an argument of the step that calls it.
--
-- Not modelled: the clients of the chat platforms, HTTP handlers and the control panel, the agent,
-- model and session libraries, the files of the configuration and their parsing, scheduling, the
-- database and the search of the knowledge graph, the executor of the coding agents with the parsing
-- of its commands, and what starts, probes and ends a child process.
pub mod Common
pub mod Json
pub mod AgentConfig
pub mod Registry
pub mod Rbac
pub mod Boot
pub mod Router
pub mod TaskQueue
pub mod MultiUser
pub mod Pairing
pub mod Access
pub mod Health
pub mod RateLimit
pub mod Reconnect
pub mod Approval
pub mod Schema
pub mod Shutdown
pub mod Coding
pub mod Delivery
pub mod KnowledgeGraph
pub mod Processes
