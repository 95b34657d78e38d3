-- ===== src/Lib.antt =====
-- VenAgent, a personal agent system: the parts of its Python backend that decide, modelled from the
-- source and proved correct. Paths are from the repository's root.
--
-- The parts and the files that model them:
--   src/repo/inmemory/state.py           Platform: the state that the in-memory stores share.
--   src/repo/inmemory/conversation.py    Platform/Conversations and Platform/Removal.
--   src/repo/inmemory/runs.py            Platform/Claims (claims, leases, approvals, ends of runs),
--                                        Platform/Runs (create_run, events), Platform/Retry (retry_run,
--                                        authorize_run) and Platform/Finish (succeed_run).
--   src/agent/runs.py, agent/events.py   Run: AgentRun, its states, RunEvent.
--   src/conversation                     Conversation: the models and the automatic title.
--   src/ownership/models.py              Ownership: actors, owners, sessions, grants.
--   src/repo/inmemory/ownership.py       Platform/Owners: owners, users, sessions and refresh tokens.
--   src/tools/approval.py                Approval: the approval items of tool calls, and ApprovalService.
--   src/tools/operation_store.py         Gateway: tools, operations, results and the operation store; the
--                                        records are those of src/tools/models.py.
--   src/tools/gateway.py                 Gateway/Invoke: ToolGateway.invoke, and its steps.
--   src/tools/invocation_store.py        Invocation: InMemoryInvocationStore.
--   src/promptctx                        Prompt: the selection of a model call's context (assembler.py).
--   src/memory/short_term.py             ShortTerm: turns, and the recent ones within a budget.
--   src/rag/splitter.py                  Splitter: RecursiveSplitter.
--   src/agent/planning/dag.py            Plan: plans, outcomes and layers, and Plan/Validation:
--                                        validate_plan with its cycle test; the records are those of
--                                        src/agent/state.py.
-- Platform/Machine is an abstract machine of runs: what one atomic step may do to the stored runs. Its
-- children show that each method takes such steps and that steps keep the invariant; Repeats is about a
-- request that create_run sees twice, and Removals about the runs of a conversation that is removed.
-- Platform/Trace takes sequences of calls, which is how the HTTP routes, the workers and the cleanup share
-- the store.
-- Approval/Deciding, Approval/Cancelling and Approval/Repeating are about one method each;
-- Approval/History takes sequences of calls of the approval service. Gateway/Admission follows the
-- guards of invoke to the calls of the executor, which the state logs, and Retries counts the rounds of
-- _execute. Plan/Layers says what stands in a
-- layer of nodes, and Plan/Waiting what this means for the nodes that wait. Plan/Cycles is about Kahn's
-- test of validate_plan: the graph that it builds (Build, Keys), the invariant of its queue (Invariant,
-- Waits) and the ranks that it amounts to (Rank, Correct); Plan/Accepted joins it with the layers.
-- Platform/Owners/Calls takes sequences of calls of the ownership methods; Sessions, Closing, Marking and
-- Authorization follow an owner that is marked for deletion, Accounts, Index and Registration the user
-- names, and Erasure what a deleted owner leaves.
-- Invocation/Refinement says which map the four dicts of the store stand for, and Invocation/Sequences takes
-- the calls on both. Splitter/Cutting and Pieces are about cutting at separators, Fences about the cut at
-- code fences, CodeBlocks about what a code block is, Merging about merging and overlap, and Whole about
-- the document. Prompt/Sorting is about the order of the
-- blocks, Selection about the loop over them, and Projection about the whole of project. ShortTerm/Turns
-- says what the turns of a conversation are, and ShortTerm/Recent which of them are kept.
--
-- How the code is read:
--   A method on self.state is a function from its arguments to an action on PlatformState, and returns
--   its result or what it raises beside the state, since what was written before a raise stays. Each
--   method holds the one lock of the state, so a call is one atomic step.
--   A datetime is a number of microseconds, a timedelta a difference of two. A dict is an association
--   list in the order of insertion. A text is a native String; sorting by text is by code points. In Splitter a
--   text is the list of its code points.
--   A uuid4 of the code is an argument, the last ones of a function, in the order in which the code
--   makes them; where a property needs that it is new, the property says so.
--   Loops are recursions on lists. The queue of the cycle test runs on fuel, as many rounds as the plan
--   has nodes, which is proved enough: a node enters the queue at most once. The cut into pieces of a
--   fixed size runs on as much fuel as the text is long, which is enough for a positive chunk_size; the
--   configuration asks for 16 at least. The retry loop of _execute recurs on the attempts that are left, which
--   retry_attempts bounds; how an attempt ends is an argument, one ending for each attempt.
--
-- Not modelled: the PostgreSQL, Neo4j, Milvus and Elasticsearch adapters, the HTTP routes, the
-- language model calls, the sandbox and the web client, which are input and output; the JSON files
-- of the approval service and the operation store, and the encrypted file of the invocation store;
-- redaction, truncation, the check of a tool's arguments and the executor itself, which are arguments of the gateway's definitions; the
-- messages of exceptions.
pub mod Prelude
pub mod Ownership
pub mod Conversation
pub mod Run
pub mod Platform
pub mod Approval
pub mod Plan
pub mod Gateway
pub mod Invocation
pub mod Prompt
pub mod Splitter
pub mod ShortTerm
