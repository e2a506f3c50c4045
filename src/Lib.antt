-- ===== src/Lib.antt =====
-- A verification library for the PC diagnostic agent.
--
-- The agent runs on a PC, collects metrics and Windows events into an SQLite database, and after a
-- reboot decides from what was stored whether the session before it ended in a crash, a hang or a
-- power loss. Its parts, and the modules that model them:
--
-- Storage (storage/*.py). The state is the record Database of Storage/Tables: the rows of each table
--   and the AUTOINCREMENT counters. Rows has the rows, Schema the metric tables (migrations.py), and
--   Metrics, Events, Sessions, Incidents and State have the methods of `Database` (database.py), each
--   a function from tables to tables that keeps its name. Retention is retention.py. Valid is the
--   well-formedness of the tables. Connection has the file behind a connection (`connect`, `close`) and
--   its versions. The SQL text of a query is the selection that it makes; the lock makes each method one
--   step.
-- Diagnostics (diagnostics/*.py). EventAnalyzer classifies and counts events, CrashDetector and
--   HangDetector read the counts, BootDetector opens sessions (`detect_boot`), and Diagnosis has the
--   engine: Queries (`_last_metric_timestamp`, `_aggregates`), Findings (`_build_findings`), Evidence,
--   and Engine (`run_diagnosis`, `diagnose_latest`). They take the tables and give back the tables.
-- Collectors (collectors/*.py). WindowsEvents reads the event log after a cursor; what the Windows API
--   answers is an argument, a list of batches or errors. Psutil and Processes make the snapshots of the
--   psutil collectors out of its answers, and Gpu those of collectors/gpu.py and
--   collectors/temperature.py out of the answers of PowerShell and nvidia-smi.
-- Agent (agent/config.py, agent/scheduler.py, agent/lifecycle.py). The scheduler's loop is a function of
--   the list of times at which it wakes up; the collectors are its arguments. Config has the
--   configuration that the engine reads, and below it `load_config` over what YAML gives, where `float`
--   of a text is an argument; Source has the path and the reading of the file. Lifecycle has
--   `startup_analysis` and, as a step relation, the sequences of operations on the tables. Workers has
--   the threads of the scheduler, which share one stop event: whether a thread stays in a collector,
--   comes to the test of the event or ends by an error is an argument.
-- Watchdog (watchdog/watchdog.py). A check is one step, and the thread is the sequence of its checks,
--   between which the rest of the agent may change the tables in any way.
-- Reports (reports/report_generator.py). Which incident a report shows, its causes and next steps, and
--   the escaping of text. Timeline has the entries of `_timeline_section`, and Sections the rows of the
--   other sections and the order of all in `generate_report`.
-- Simulation (simulation/scenarios.py, simulation/runner.py). Scenarios has the four scenarios, whose
--   samples and heartbeats are the streams of Streams; Runner seeds an empty database with one of them
--   and runs the engine on it (`run_simulation`); Annotation has the blocks in front of its report.
-- Cli (cli/commands.py). A command is a function from the tables to the printed lines and the exit code.
--   Printed has the parts of a printed line, which keep the value that is formatted.
-- Disk. The files, by their paths (Common/Paths, common/paths.py): databases, reports and others.
--   Agent/Running has the agent from start to stop on the files (agent/main.py, agent/lifecycle.py), and
--   Simulation/Workspace has `run_simulation` with its files. Watchdog/Heartbeat is the heartbeat file
--   (watchdog/heartbeat.py). Deployment is any sequence of runs of the agent, simulations and reports.
-- Service (service/windows_service.py, pcdiag.py). The stop event and the messages of the service, and
--   what a start of the program does. Common/SystemInfo is the inventory of the machine
--   (common/system_info.py) out of the answers of the system, with the command and the section that
--   show it.
-- Examples. The theorems applied at concrete tables, logs and states, with tests of the definitions.
-- Prelude. Boolean tests, lists, integers, dictionaries, text and sorting.
--
-- Times are natural numbers of milliseconds since the epoch, and readings are whole thousandths, where
-- the source has floats: the frequency of the processor is rounded as the source does, and the readings
-- of a scenario, which are products of floats, are rounded down. Where the source subtracts times, the
-- test is written with a sum, or the difference stops at the epoch, which selects the same rows. No loop
-- needs fuel: each is recursion on a list, but for the streams of a scenario, which count up to an end
-- and are recursion on the accessibility of the time that remains.
--
-- Not modelled: logging and the formatting of dates (common/logging_setup.py, common/time_utils.py),
-- HTML, the archive of an export, the argument parser, pywin32, directories, the interleaving of threads
-- within an operation, and sqlite3's own errors except for rows that it refuses and files that are no
-- database.
pub mod Prelude
pub mod Storage
pub mod Diagnostics
pub mod Agent
pub mod Watchdog
pub mod Collectors
pub mod Examples
pub mod Reports
pub mod Simulation
pub mod Cli
pub mod Common
pub mod Disk
pub mod Service
pub mod Deployment
pub mod Printed
