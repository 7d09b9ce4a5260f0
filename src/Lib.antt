-- ===== src/Lib.antt =====
-- A model of bls-runtime, the WASI runtime of the Blockless network, with the theorems that hold
-- of it. Paths are from the root of the repository. A module of the model stands beside the part
-- of the program that it is about: its data types and functions carry the source's names, and its
-- child modules hold the theorems.
--
-- Multiaddr is crates/blockless-multiaddr: the state machine of parse.rs that cuts an address into
-- indicators, and to_url_string. Bytes are numbers, an indicator is the pair of its offsets with
-- the slice between them. Wasi.Table is crates/wasi-common/src/table.rs, the handles that a guest
-- has: the map is an association list, and the counter a number that wraps at 2 ^ 32. Its loop in
-- push runs on fuel, one round more than there are entries, and a theorem says that this is
-- enough. The write lock covers each operation, so an operation is a function of the inner state.
-- Wasi.StringArray is string_array.rs beside it, over a record of the guest memory that wiggle
-- implements. Wasi.Sched is sched.rs with sync/sched/unix.rs: a poll over subscriptions, with the
-- answers of the system as a list. Wasi.Errno holds the errors of these.
--
-- Config is crates/wasi-common/src/blockless/config.rs with the URL permissions of permissions.rs,
-- and Config.Data its types; Config.Options has the option table of the engine and the parser for
-- it that bls-runtime/src/config.rs calls. Permissions is BlsRuntimePermissionsContainer over a
-- record for the library bls_permissions, and Permissions.Parser is permission_parser.rs over a
-- record for paths. Runner is preview1_builder of blockless/src/lib.rs: it goes from a
-- configuration to the table, the arguments and the environment of the guest, over a record that
-- says which paths open and which addresses bind. It drives Wasi.Table and Wasi.StringArray and
-- reads Config. Runner.Run is BlocklessRunner::run of the same file as the list of the steps that
-- it takes, over a record that says which of them fail. Modules is blockless/src/modules.rs over a
-- record of a WebAssembly instance: the call of a function of another module through buffers in
-- its memory (Modules.Call and Modules.Buffers have the theorems), and in Modules.Linking the
-- order in which the modules of a configuration are loaded. Drivers is the registry of
-- crates/blockless-drivers/src/lib.rs, which finds a driver by the schema of an address;
-- Drivers.Cgi is the CGI driver beside it, with the handles that a guest has, over a record of the
-- system's processes, and Drivers.Cgi.Extensions the rows of its table with the listing of a
-- directory. Drivers.Http is http_driver/reqwest_driver.rs over a record of the client and of
-- JSON, and Drivers.Http.Streams the loop that fills a buffer from the pieces of a body: a list of
-- what the network gives, and fuel of a round for each of them and two, which a theorem says is
-- enough. Drivers.Ipfs is ipfs_driver with read_ext.rs, and Drivers.Ipfs.HttpRaw its http_raw.rs,
-- over a record of the parsers and the socket; the loop over chunks takes fuel, and theorems say
-- when some is enough and when none is. Drivers.Llm is llm_driver: Drivers.Llm.Models the models
-- and the checks of their URLs, Drivers.Llm.Tools the tools of mcp.rs, Drivers.Llm.Contexts the
-- conversations of mod.rs with the handles of handle.rs, where what other calls do while a read
-- waits is a parameter, as is whether a read holds the model that is closed, Drivers.Llm.Download
-- the download_model of llamafile.rs over a record of the server and of the disk, and
-- Drivers.Llm.Provider the provider of the same file, over a record of the system's processes and
-- of the network. Drivers.Handles has the laws of the tables of handles. Modules.Registry is the
-- rest of blockless/src/modules.rs: which exports of an instance are kept, what a guest registers,
-- and how a call by name finds its function, over records for the engine, the guest and the JSON
-- library; a data type of its changes says which registries are reachable. ExitCode is
-- error_process of blockless/src/lib.rs with bls-runtime/src/error.rs: how an error becomes the
-- status of the process.
--
-- Cli is bls-runtime/src: Cli.Parsers has the parsers of cli_clap.rs for option values,
-- Cli.Environment its load_environment_vars, Cli.Override its into_config, which changes a Config
-- by the command line, Cli.Files the configurations of config.rs (a WebAssembly file, or JSON over
-- a record of the library, whose permissions go through Multiaddr), and Cli.Start the functions
-- main, load_cli_config, check_module_sum and wasm_runtime of main.rs over a record of the host,
-- with ExitCode for the end. An error keeps no message there; a panic and a call of exit are
-- constructors.
--
-- Prelude has the shared notation: tests on numbers, association lists with their laws, lists over
-- the native numbers, texts as bytes, the results of fallible calls in Prelude.Result, and the
-- standard library's splitting and replacing in Prelude.Split. Tests has runs at concrete inputs
-- and the theorems applied to them.
--
-- Machine integers keep their wrap-around as a remainder. Where the source panics, the model has
-- none, or a constructor for it, and says so; the checks of arithmetic that only some builds make
-- are not modelled. Logging, the texts of messages and the file system itself are not modelled;
-- nor are the WASI host calls and the permission prompts, which are copies of other projects, the
-- drivers that are not named here, the process and the requests of the language model's server,
-- the car archives, which another library reads, the tables of options that clap generates, the
-- JSON text of a CGI listing, and the lock of the registry of modules.
pub mod Prelude
pub mod Multiaddr
pub mod Wasi
pub mod Config
pub mod ExitCode
pub mod Permissions
pub mod Runner
pub mod Modules
pub mod Drivers
pub mod Cli
pub mod Tests
