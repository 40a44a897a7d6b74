-- ===== src/Lib.antt =====
-- flowz: a continuous-integration server in Rust, with its agent. A pipeline file says which steps a
-- run has; the server keeps runs, steps, logs and artifacts in a database; the agent claims a run, makes
-- a workspace, fetches secrets, runs the steps on the host or in jails, and reports what happened.
--
-- The parts and their files:
--   Model      src/model/mod.rs: the pipeline file, runs, steps and artifacts.
--   Pipeline   src/pipeline/mod.rs: `parse` and `validate`; Pipeline.Graph is `detect_cycle`. Valid and
--              Errors describe valid files and faults independently of the code.
--   Secrets    src/secrets/mod.rs: `Masker`, and `fetch` from what the provider's process gives.
--   Store      src/store/mod.rs: each query as a function of the tables, over an `Engine` that sorts.
--              Claims.Race splits `claim_next_job` into its two statements. Table is the map that
--              the queries on runs implement.
--   Executor   src/executor/mod.rs: the command, the environment file and the guards of a step.
--   Agent      src/agent/mod.rs: `execute_run` and what it calls. Resolver is `SecretsResolver` and the
--              preflight loop, Env the environment of a step, Steps the loop over the steps, Run the rest.
--   Workspace  src/agent/workspace.rs: `prepare`, `attach_caches` and `finish` as commands to a machine.
--              Datasets says what is relied on of ZFS.
--   Webhook    src/webhook/mod.rs: the signature of a delivery, and the push event in it.
--   Server     src/server/mod.rs and src/server/auth.rs: the handlers over the tables. Here `post_status`
--              is `update_run_status`, `post_run` is `create_run`, `recent_runs` is `list_runs`, and
--              `run_detail` is `get_run`. Artifacts has the uploads and downloads, Jobs the polls and the
--              handlers of runs and repositories, Pages what the pages show, Stream the log stream,
--              Cookies, Provider and Auth the login, and Router the gate.
--   Cli        src/cli/mod.rs: the settings that the server and the agent start with.
--   Prelude    texts, lists, tests and results that the parts share.
-- The agent calls `parse` of Pipeline, `mask` of Secrets and `run_step` of Executor; the handlers call
-- Webhook and the queries of Store.
--
-- A text is a list of code points, a map of the pipeline file the list of its entries in order, a time a
-- number of ticks. State is passed explicitly; what the agent sends and does is a list of events. The
-- posts of a step's lines stand behind what the step does on the host, whatever the two threads do.
-- Processes, the file system with what fails in it, the YAML and JSON parsers, the order of a hash
-- map's keys, the cutting of lines into bursts, and the text of an error are parameters: the record
-- `World` of Agent.Steps holds those of a run.
--
-- The search for cycles recurs on fuel: one more than the number of steps, since each call enters a step
-- that is not on the stack. A poll for a job has as many checks as its timeout has seconds, and one more:
-- a check takes two seconds at least. The log stream runs until its run ends, so that its fuel is a
-- number of rounds which the theorem on it bounds from below. All other loops are structural.
--
-- What the server gets from elsewhere is a parameter: the clock, new identifiers, what happens to the
-- database while a handler sleeps, the identity provider's answers, and the encoding of tokens and links
-- (the records `Web` and `Provider`). A file of the server is an entry of a map by its path.
--
-- Not modelled: the endless loop `run_loop` of the agent, the walks through the file system
-- (`collect_files`, `remove_dir_all_force`), the HTML and the sizes on the pages of the server, whose texts
-- come from floating-point numbers, and the arguments of the command line (src/cli).
pub mod Prelude
pub mod Model
pub mod Pipeline
pub mod Secrets
pub mod Store
pub mod Executor
pub mod Agent
pub mod Webhook
pub mod Server
pub mod Workspace
pub mod Cli
