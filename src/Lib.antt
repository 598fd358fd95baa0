-- ===== src/Lib.antt =====
-- The RDE linter of Open vAIR, requirements_linter/. It checks the Python code of a module,
-- openvair/modules/<feature>, against a contract in specs/: classes with their methods, functions of
-- files, and HTTP routes, by layer.
--
-- A run goes through these parts (paths are below requirements_linter/ unless they begin with
-- openvair/):
--   contract/spec_document.py reads a contract (YAML, or an `rde` block of Markdown), rewrites its
--     shorthand keys and returns a dict with meta, feature and layers;
--   core/ast_specs.py loads the sources of a module, parses them, and builds an index by layer, for
--     which http/http_routes.py finds the routes and http/naming.py says what is public;
--   core/comparator.py goes through the contract and gives errors where the index lacks something,
--     and warnings where the index has more;
--   entrypoints/cli.py and entrypoints/lint_repo_specs.py run this for one module, or for all the
--     contracts of a repository, and end in an exit code.
--
-- Which file models what:
--   Base, Base/*: Python's texts, dicts, sets that get sorted, == and `in`
--   Result: exceptions; `Result A` is a value or an exception, and >>= is the next statement
--   Value, Value/*: the values that YAML gives, with str() and repr()
--   Paths: normalize_rel_path, infer_layer, is_contract_public_name, and what they use of pathlib;
--     Paths/Layers: a lemma on them
--   Ast: the nodes of Python's `ast` that the linter looks at, and ast.walk
--   Http/RoutePath, Routers, Parameters, Endpoints: http/http_routes.py; RouteLaws, Kinds and
--     RouteKeys: its properties
--   Index: core/ast_specs.py; Index/Declares says which methods a tree declares, apart from the code;
--     Index/Walked, Fuel, Methods, Recorded, Returns: its properties
--   Compare, Compare/Messages, Rows, Required, Layers, Extras: core/comparator.py; Compare/Fulfilled
--     says what it promises, apart from the code; Errors, Total and Verdict: its properties
--   Contract, Contract/Fence, Contract/Layers: contract/spec_document.py; Normal, Stable: its
--     properties
--   Cli, Cli/Sources: core/analyzer.py, load_module_sources, entrypoints/; Cli/Exits: its properties
--   Tests/*: runs on small inputs
--
-- How the code corresponds to the model:
--   A function keeps its name without a leading underscore. A function that appends to a list returns
--   what it appends, and a function that writes into a dict returns the dict. A `raise` is `err`, and
--   ends the run as it does in the code. `Comparator.errors` is the argument `before` of `compare`.
--   A message is a constructor with the values that the message shows.
--   Parameters stand for code of other packages: `safe_load` for yaml.safe_load, `parse` for ast.parse
--   and `unparse` for ast.unparse. Nothing is assumed of them.
--   `walk` goes through a queue, with the number of statements of the tree as its fuel, which is
--   enough since each node is taken off the queue once.
--   The keys of YAML mappings are texts. `upper`, `lower` and `strip` work on ASCII characters.
--
-- Not modelled: what is printed, the parsing of arguments, contract_to_markdown (which only tests
-- use), and reading files: a run takes the files that are there. Of openvair/, which the linter
-- checks but does not import, the user, volume, image, storage and template services and the
-- validators are modelled; the other modules, the domain layers and the entry points are not.
--
-- Of openvair/, Users models openvair/modules/user/service_layer/services.py over the repository of
-- openvair/common/repositories/base_sqlalchemy.py (Users/Accounts: its properties). `Session` stands
-- for the calls of SQLAlchemy that the repository makes, with the database as a state that is passed
-- on, and `Bcrypt` for passlib. A message is a record with `none` for a missing key, its ids and
-- names being texts. What `DataSerializer.to_web` makes of a user is the user itself. Not modelled
-- there: get_all_users, and errors of the connection.
--
-- Service, Service/* is what the service layers of openvair/modules share: a method is a function of
-- the state that gives a value or an exception and the state after it. Service/Table is a table with
-- primary keys, for the calls of the repository: get, add, update, delete. Service/Keeps, Ensures
-- and Runs follow a method statement by statement. A method is one step: two methods never run at
-- once. What another service answers during a call of a method is an argument of it, `Environment`;
-- an answer is a value, or `RpcCallException`, or `RpcCallTimeoutException`. Nothing is assumed of
-- the answers, but that the domain layer gives a clone the id that it is told to.
--
-- Volumes, Volumes/* model openvair/modules/volume/service_layer/services.py: Checks, Create,
-- Extend, Delete, Attach, Clone, Template, Monitor and Queries have one function per method, named
-- as the method, `_step` at the end of the methods that it casts to itself. Volumes/Operations puts
-- them together as the steps of a state machine, in which a request, a cast or the periodic task
-- comes in any order. A row keeps its changes when a method raises, since each block commits in its
-- `finally`, or writes nothing before what raises. The messages are records with `none` for a
-- missing key; sizes are not negative, as entrypoints/schemas.py has it; texts of information keep
-- the exception and what was being done. Create/Blocks, Outcome, Request, Extend/Growth,
-- Delete/Requests, Attach/Detached, Clone/Refused, Monitor/Bulk, Statuses and Operations/Rows,
-- Answers, Changes, Distinct: its properties.
--
-- Images, Images/* model openvair/modules/image/service_layer/services.py in the same way
-- (Create/Ended, Delete/Token, Attach/Again, Monitor/Unlisted: its properties). There an event needs
-- a user id that is a UUID, a block that does not commit is rolled back by an exception, and TMP_DIR
-- is a list of file names.
--
-- Storages, Storages/* model openvair/modules/storage/service_layer/services.py in the same way, and
-- Storages/Disks models openvair/modules/storage/libs/utils.py over what lsblk prints, which is an
-- argument. A row keeps its extra specs as a dict, whose values may be null. Storages/Operations has
-- the methods as steps; Operations/Labels says what a step may make of the table, apart from the
-- code, and Operations/Rows, Requests, Changes, Unique, Create/Outcome, Specs, Paths, Disks/Mounts
-- and Delete/Outcome are its properties. Service/Gives and Ends follow a method with what is known of
-- the values that it gives.
--
-- Templates, Templates/* model openvair/modules/template/service_layer/services.py in the same way,
-- with the serializers of openvair/common/serialization: Calls has the calls of the other services,
-- Requests the methods that are called, Steps those that they cast (Requests/Related, Steps/Ending,
-- Operations/Rules, Sizes: its properties). A model that does not validate is a validation error. A
-- row whose name another row has is refused by the database.
--
-- System puts the volume service and the storage service together: a step is a method of one of
-- them, to whose calls the other answers from its own table, or fails. Placing, Calling, Naming and
-- Held are its properties.
--
-- Validation models openvair/libs/validation/validators.py
-- (Validation/Outcomes: its properties). A Pydantic schema is a parameter there: `Schema` has
-- model_validate, model_construct, the names of the fields, and the adapter of a field at None.
pub mod Base
pub mod Result
pub mod Value
pub mod Paths
pub mod Ast
pub mod Http
pub mod Index
pub mod Compare
pub mod Contract
pub mod Cli
pub mod Validation
pub mod Users
pub mod Service
pub mod Volumes
pub mod Images
pub mod Storages
pub mod Templates
pub mod System
mod Tests
