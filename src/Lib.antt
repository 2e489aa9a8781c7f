-- ===== src/Lib.antt =====
-- EDGI OS: the configuration of a machine, modelled and proved.
--
-- The program is the `edgi` binary of a small operating system for k3s. At each phase of a boot it
-- reads the configuration from several sources, merges them, and applies it: host name, kernel
-- modules and settings, files, users' keys, network, environment, commands, and k3s. An installer
-- asks for what is missing. This library models these parts; every definition is by clauses and can be run.
--
-- The parts and their files:
--   * Base: what the program takes from Go's strings, strconv, sort, path and bufio, on bytes.
--   * Os: the machine. A World holds the files, the faults that the calls to come meet, the
--     outcomes of the commands to come, the answers of the network, the lines of the input and a trace of
--     what was asked of the outside. An action of type M changes the world and gives a value or an error.
--   * Util: pkg/util. WriteFileAtomic is Util/Atomic, DecodeContent is Util/Decode, the password
--     prompt is Util/Password, the rest is Util/Calls.
--   * Config: pkg/config. The records are Config/Types, coerce.go is Config/Coerce, rename.go is
--     Config/Fuzzy, read.go is Config/Read and Config/Env, read_cc.go is Config/Sources, toYAMLKeys of
--     write.go is in Config/Env, the rest of write.go and ToEnv in Config/Write.
--   * WriteFile, Hostname, Module, Sysctl, Command, Ssh: the packages of these names.
--   * System: pkg/system/system.go and pkg/mode.
--   * Cc: pkg/cc. runApplies and the phases are Cc/Applies, ApplyK3S is Cc/K3s, ApplyEnvironment is
--     Cc/Environment, ApplyDNS, ApplyWifi and ApplyDataSource are Cc/Network.
--   * Questions: pkg/questions. Ask: pkg/cliinstall/ask.go, AskPassword in Ask/Login, the order of the
--     questions in Ask/Flow.
--   * Install: pkg/cliinstall/install.go. Cli: what the commands of pkg/cli run, and
--     main.go; the commands, their flags and the application of pkg/cli/app are declared in Cli/Declared.
--   * Component: pkg/system/component.go. Upgrade: pkg/cli/upgrade.
--   * Enter: pkg/enterchroot. ensureloop.go is Enter/Loop; of enter.go, inFile is Enter/Scan, findRoot and
--     Mount are Enter/Root, run and Enter are Enter/Run.
--   * Transfer: pkg/transferroot.
--   * Rc: pkg/cli/rc. The calls that log their errors are Rc/Calls, doMounts is Rc/Mounts, the rest Rc/Steps.
--   * Examples: runs on a small machine.
-- Where a part has theorems, they stand in its child Laws; those on questions for yes or no stand
-- in Questions/YesNo, those on rounds and lines in Questions/Fuel and Ask/Fuel, those on the search
-- for the image in Enter/Scan/Image, those on the boot's host name in Rc/Steps/Name. What
-- /etc/environment reads back is Cc/Environment/RoundTrip, and the map of variables that the file
-- stands for Cc/Environment/Refines. The names that findRoot finds are in Enter/Root/Names, a Mount
-- where no call fails is in Enter/Root/Quiet, the table of control groups in Rc/Calls/Table, the
-- results of an upgrade's copies in Upgrade/Components, the walks of a move in Transfer/Walks,
-- Transfer/Own and Transfer/Remains, what the process that moved a root leaves in Transfer/Once, how
-- often a root is moved in Transfer/Once/Again, and what the init becomes in Cli/Initrd. Os/Keeps, Os/Completes, Os/Replaced and Os/Lines hold rules on actions: what they
-- keep, that they return, that they replace the process, and how many lines they take.
--
-- Choices. Any call on files may fail, and a write may stop after some bytes: the faults are a list
-- that the calls use up, and a theorem that leaves it free holds for every sequence of faults. A
-- command may do anything to the files. A Go map is its entries in one order. Errors keep their
-- texts only as far as the code looks at them. The loops of the questions run on fuel, one round
-- more than there are lines of input, and each round takes a line; those of the password prompt on
-- one more than there are bytes; the loop over keys has its own bound of 513 rounds, that over
-- requests one of ten.
--
-- Of the environment a variable is unset or not empty; a variable that is appended to it counts where it
-- is not set. The event of syscall.Exec holds the environment that the next program gets. A reader of
-- the standard input may take further lines into its buffer, which are lost with it; on a terminal it
-- takes none. os.Chmod in WriteFile goes by the bits that Go takes from a numeric mode; the other
-- callers give nine bits, or the mode that a file has.
--
-- The search for the image goes by the reads of the file, a list. A path leads from the root, and
-- after pivot_root from the new one. A directory is renamed with all that is below it. The regular
-- expression of readCmdline is the function that finds its leftmost match; its loop has a round for
-- each byte.
--
-- Parameters: the gzip decompressor, the mapper, YAML and JSON libraries, the version that the
-- build sets, the listing of directories and filepath.Glob, the user id, the copying library, the
-- mounts of the docker library, the losetup library, unix.Mkdev, flock, the search for a program,
-- unix.Setrlimit, the trees that filepath.Walk meets, and what the parsing of the command line leaves
-- in the destinations of the flags. Calls and commands beyond the listed faults and outcomes work.
--
-- Not modelled: the level of the log where it decides only which lines are printed, the raw mode of
-- the terminal, the parsing of the command line by its library, the point of time at which the
-- goroutine of Mount runs, and the vendored libraries.
pub mod Base
pub mod Os
pub mod Util
pub mod Config
pub mod WriteFile
pub mod System
pub mod Hostname
pub mod Module
pub mod Sysctl
pub mod Command
pub mod Ssh
pub mod Cc
pub mod Questions
pub mod Ask
pub mod Component
pub mod Upgrade
pub mod Enter
pub mod Rc
pub mod Install
pub mod Cli
pub mod Transfer
pub mod Examples
