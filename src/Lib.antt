-- ===== src/Lib.antt =====
-- The benchmark harness (benchmark-harness/harness), which runs storage benchmarks over ssh and
-- keeps their results in SQLite, and the steps of a pipeline that turns generated answers into a
-- training set.
--
-- A campaign file names nodes, targets and runs. `load_campaign` reads and validates it,
-- `preflight_target` checks the targets, and `run_campaign` drives a runner (fio) for each
-- scenario and repeat, writes the run, its scenarios and its metrics to the store, and cleans up.
-- Resuming a run skips what the store says is completed.
--
-- Base: the shared types, tests, texts, integers, and `Py`, the methods that change a state and
-- may raise. Base/Raises has the rules for the exceptions that leave a method, Base/Sorting the
-- laws of ORDER BY, Base/Dict is a dict in the order of its keys, Base/Pairs relates the items of
-- lists, Base/Slices is about the first items of a list and the rest, and Base/Time is the UTC
-- stamp of a run id.
-- Table: a table with a primary key, as a list of rows in the order of their rowids. Table/Laws
-- and Table/Rows are about its statements.
-- Store: benchmark-harness/harness/store.py. Store/Schema has the rows, Store/Writes and
-- Store/Reads have one function per function of the file, on a database file that is absent, blank
-- (opened without tables) or holds the tables. Store/Invariant is about the constraints of the
-- schema, Store/Resume about what a resumed run reads, Store/Metrics about what is read of
-- recorded metrics.
-- Floats: the floats of the program, a parameter. No property relies on a law of theirs.
-- Config: benchmark-harness/harness/config.py. The YAML reader, pydantic's typing of fields and
-- the file system are the parameter `Loader`; the harness's own validators, `parse_size_gib` and
-- `load_campaign` are written out. Config/Loaded and Config/Nodes are about a campaign that loads.
-- System: the state that a run changes (the sent commands, local files, directories, the database,
-- the printed lines) and the parameter `Outside`, which gives the processes and the clocks.
-- Ssh: benchmark-harness/harness/ssh.py. Ssh/Remote runs a command, Ssh/Target checks a target,
-- Ssh/Verdict is about its verdict, Ssh/Raises about the exceptions.
-- Parsers/Fio: benchmark-harness/harness/parsers/fio.py, of a decoded document; the decoding of
-- the JSON text is the parameter `loads`, or the `Reader` of `load_source`, which reads files too.
-- A job name that is a number is the text that the database makes of it, and one that no text is
-- made of raises at once. Parsers/Fio/Raises is about the exceptions.
-- Runners: benchmark-harness/harness/runners/base.py and fio.py. Runners/Interface is what the
-- orchestrator may assume of a runner; a generator is the list of the actions that make its
-- outcomes. Runners/Fio renders, prepares, runs and cleans up; its children Database, Raises and
-- Agreement are about the database, the exceptions and the check of a target.
-- Orchestrator: benchmark-harness/harness/orchestrator.py. The registered runners are a parameter.
-- Orchestrator/Invariant is about the database, Orchestrator/Resume about completed and
-- interrupted scenarios, Orchestrator/Latest about the run that is found.
-- Report: benchmark-harness/harness/report.py. Report/Spec is about one metric, Report/Sections
-- builds what the template gets, Report/Format has the texts of the cells, Report/Laws is about a
-- report without its campaign file.
-- Cli: benchmark-harness/harness/cli.py, over the parts above: a command returns its exit code.
-- Cli/Targets holds the checks that preflight and run share, Cli/Recorded the commands that only
-- read the database. Cli/Requirements is about the sizes that a preflight asks for, Cli/Gate about
-- a run that is refused.
-- DataGen: artifacts/concepts/llm-pipeline-on-a-workstation/reproduce/data-gen, steps of the
-- pipeline from recipes to a training set. DataGen/Unify is pass1_schema_unify.py: Unify/Extract
-- makes a row of a line or of a book, Unify/Run is `main`. DataGen/Classify is
-- pass2_vegan_classify.py, whose table BLOCKLIST is the one of filter_clean.py, and DataGen/Shards
-- is split_prompts.py. DataGen/Rows has the lines that the steps pass on, DataGen/Lines reads
-- files of them. DataGen/Leak is the leakage flag of filter_clean.py and DataGen/Filter the rest
-- of it; DataGen/Prompts is build_prompts.py: Prompts/Topics has its tables, Prompts/Excerpt reads
-- a grounding row, Prompts/Fill picks the placeholders, Prompts/Build writes the prompts.
-- DataGen/Generate is generate.py: Generate/Request has the payload and the rows, Generate/Reply
-- sends a prompt and makes a row of the reply, Generate/Run is `run`, where the tasks finish in
-- any order and the reply to a request is a parameter (`Endpoint`). DataGen/Chat is
-- to_chat_format.py, DataGen/Split is split_dataset.py. Regular expressions (`Regex`), the files,
-- the reader and the writer of a JSON line, random numbers (`Rng`), `str`, `str.format`,
-- `str.splitlines` and the shuffle are parameters. Prompts/Numbers, Prompts/Written, Prompts/Ids,
-- Prompts/Adaptable, Prompts/Diets, Prompts/Short, Generate/Outcome, Generate/Returns,
-- Generate/Resume, Generate/Chunked, Classify/Worst, Shards/Interleave, Leak/Diets,
-- Filter/Distinct, Filter/Clean, Filter/Longest, Chat/Complete, Unify/Collected, Unify/Schema,
-- Unify/InSchema, and Split/Groups, Split/Leakage, Split/Check and Split/Partition hold the
-- proofs.
-- DataGen/Teacher: orchestrator.py of the same directory, the teacher run in chunks. Its shell and
-- clock are the parameter `Machine`, whose `start_and_wait` starts generate.py and waits for it.
-- Teacher/Commands has the configuration and the texts of the commands, Teacher/Shell runs them
-- and starts, waits for and stops vLLM, Teacher/Chunks is run_chunk and main; of a line of
-- progress.txt the time and the dicts in it are left out. Teacher/BailOut, Teacher/Stops,
-- Teacher/Bounds and Teacher/Wait hold the proofs.
-- Tests: concrete floats, an outside world, a loader and a campaign, on which the properties are
-- applied.
--
-- The loops are over finite lists and counts, but for the wait for vLLM: its fuel is `timeout / 5
-- + 2` rounds, since each of them sleeps for five seconds, and the result `none` would tell that
-- it is used up. The waits for the nodes, and their runs of generate.py, come one after the other,
-- which is all the same for the one node that is configured. The clock of `Machine` counts whole
-- seconds. `subprocess.run` ends with its outputs, by its timeout, or with a FileNotFoundError, a
-- UnicodeDecodeError or another OSError. In generate.py the concurrency, --flush-every and
-- --progress-every are at least 1, and Ctrl-C is not modelled. Integers are unbounded, as Python's
-- are. Durations count nanoseconds and timestamps seconds. Text is read as ASCII where its case or
-- blanks matter.
--
-- Not modelled: click, the summary that `validate` prints, the text of orchestrator.log, the
-- template of the reports, the YAML and JSON readers, SQLite's file format and locking, most
-- counts that the scripts of data-gen only print, and the other scripts under artifacts.
pub mod Base
pub mod Table
pub mod Store
pub mod Floats
pub mod Config
pub mod System
pub mod Ssh
pub mod Parsers
pub mod Runners
pub mod Orchestrator
pub mod Report
pub mod Cli
pub mod DataGen
mod Tests
