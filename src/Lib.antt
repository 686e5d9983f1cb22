-- ===== src/Lib.antt =====
-- Quality Flow: the execution of test suites, their schedules, constants, mock servers and datasets.
--
-- A suite has tests and up to four hooks: before all, before each, after each and after all. Each
-- of these items has commands, which work on a shared run context. The executor of suites runs the
-- items in order; the command loop checks each command against a policy, executes it, and records
-- its outcome; events of both are published. Schedules start suites, and the registry of constants
-- checks a suite's references when it is saved. Mock servers answer requests by routes, with commands
-- of their own, and a dataset is a table with a perimeter, which is compiled to a query.
--
--   Base        texts, dicts, lists and integers on native numbers, exceptions as values
--   Context     app/elaborations/services/suite_runs/run_context.py
--   Command     command_scope.py, command_contract_registry.py, command_policy_validator.py and
--               command_executor_composite.py of app/elaborations/services/operations, and
--               app/elaborations/services/suite_runs/execution_runtime_context.py
--   Suite       suite_item_executor.py and test_suite_executor_thread.py of
--               app/elaborations/services/test_suites, and
--               app/elaborations/services/suite_source_registry.py
--   Datasets    app/data_sources/services/dataset_perimeter_compiler.py
--   Mocks       mock_server_runtime_registry.py, mock_runtime_dispatcher.py and the order of routes
--               of mock_runtime_loader.py, of app/mock_servers/services/runtime
--   Schedules   test_suite_schedules/test_suite_scheduler_service.py and
--               alembic/test_suite_schedule_service.py of app/elaborations/services
--   Constants   app/elaborations/services/constants/command_constant_definition_registry.py
--   Events      app/elaborations/services/suite_runs/execution_event_bus.py
--   Asserts     app/elaborations/services/asserts/json_data_assert_evaluators.py
--
-- Context. Python's dicts and lists are shared, so `Store` maps addresses to objects, and the four
-- scopes of a `RunContext` are addresses, which refer to each other as in the source. `Paths` has
-- the tokens of a target path, `Assign` the writes below a container, `Record` the class and its
-- construction, `Access` the operations by path and by name, `Binding` what an item binds and puts
-- back, `Payload` the context as a plain dict. The context variable that holds the current context
-- is an `Option` argument.
--
-- Command. `Scope`, `Contract` and `Policy` are the three modules of their names. `Runtime` has the
-- nine context variables of an execution as a record. `Execute` is the loop of
-- `execute_operations`: a `Machine` holds the run context, the two tables of command executions and
-- the events. The conversion of a stored configuration (`convert_to_config_command_type`, the data
-- classes of pydantic) and the executors of single commands (`execute_operation`: HTTP, databases,
-- queues) are arguments. They may succeed or fail in any way; it is only assumed that they change
-- no more of the model than the run context and its objects.
--
-- Suite. `Item` and `Sources` are an item's commands and the sources that it sees. `ItemRun` is
-- `_execute_item`. `Run` is `_execute`: each of its parts is a function from the variables of
-- `_execute` (`Run`) to these, with an `err` where an exception leaves it, and `close_run` commits
-- the rows or rolls them back.
--
-- Events. The `Bus` has the history and the subscribers of each execution, and the subscribers'
-- queues by address. `publish_frame`, `subscribe_to_execution` and `unsubscribe_from_execution` are
-- the functions of these names as single steps: a publication is not split between its lock and
-- its loop over the queues. `stream_frames` is what a client is sent, from the history that it got
-- and from what its queue gave.
--
-- Asserts. `Json` is a JSON value, `Multiset` the `Counter` of the tuples that a row has at the keys.
-- `json.dumps` is an argument, about which nothing is assumed, and so is the table of payloads. The
-- index of a row is left out of a message. Not modelled are the validation by a JSON schema, which a
-- library does, and the two evaluators that compare values by Python's `==`.
--
-- Constants. `Tables` has the sections, scopes and types, `Config` what the registry reads of a
-- configuration and its references, `Plan` the commands of a section in order, and `Suite` and
-- `Mock` the checks on saving and the rows that are written. The table of definitions is a list, and
-- an error leaves it as it was. Arguments are the conversion of a configuration, the ids of `uuid4`
-- by the position of the command, and the configuration `{}`. The orders of commands are integers
-- (`Base.Int`), since the code takes any. Left out are the times of a row, `declared_at_order`, which
-- is the order of the definition, and that a command of a mock API keeps the id that it is given.
--
-- Schedules. `Next` is `compute_next_run_at`, `Trigger` is `trigger_schedule` on the table of
-- schedules, with `managed_session` as what a transaction leaves of it, and `Process` the pass over
-- the schedules that are due. A time is the number of microseconds since `datetime.min`, of which
-- `datetime.max` is the last, and a duration is bounded as a `timedelta` is; both raise as in Python. A
-- frequency's value is a natural number, so a negative one, which is refused as 0 is, does not occur.
-- Arguments are the start of an execution, which may raise, the ids of the suites, and the table of
-- executions when each schedule is triggered.
--
-- Mocks. `Registry` is the state of `MockServerRuntimeRegistry`; the lock makes each operation one
-- step, and a start is given the server that is loaded, whose endpoint is normalised once. `Match` is
-- the matching of a request, with Python's `==` and `str` on JSON values as arguments, about which
-- nothing is assumed. A route's priority and order are integers.
--
-- Datasets. `Filter` and `Query` bring a perimeter into its normal form, which is typed data instead of
-- a dict, and `Compile` and `Query` build the query, which is the data that SQLAlchemy's functions
-- would be given. The parameters of a perimeter are an argument, their types by name, and so are their
-- values and `str(v or "")` of a JSON value that is no text. Of the errors of SQLAlchemy
-- there is that of a comparison with None, True or False, other than eq and neq.
--
-- Loops are structural recursion: over the tokens of a path, the commands of an item, the tests of a
-- suite, the rows of a table and the parts of a JSON value. No fuel is needed. `while len(items) <= idx` is recursion on how many are missing.
--
-- Simplified: the id of a row is its number in its table, and an execution's id is not empty, as a
-- UUID; time stamps and log messages are left out; a method of `str` changes case on ASCII letters
-- only, and `isdigit` knows ASCII digits only; a number of a JSON value is a natural number, and any
-- other immutable object a number that stands for it; a payload's ids are texts; an exception is its
-- text. A `Value` is shared by its address, so no cycle is unfolded.
--
-- Not modelled: the executors of single commands, HTTP, queues and databases (input and output);
-- `build_run_context_scope` and the templates that it serves; the answers of mock servers; the values
-- of dataset parameters; the legacy executor of suites; the data classes of pydantic; the user
-- interface.
pub mod Base
pub mod Context
pub mod Command
pub mod Suite
pub mod Events
pub mod Asserts
pub mod Constants
pub mod Schedules
pub mod Mocks
pub mod Datasets
