-- ===== src/Lib.antt =====
-- Kefka is a shell for a virtual filesystem: a registry of commands written in Go or compiled to
-- WebAssembly, filesystems under them (s3fs keeps files as objects of a bucket), and programs
-- that put the two together. The registry resolves paths against a working directory and
-- dispatches a command, which gets the filesystem, its streams and its arguments; the commands
-- parse their arguments and work on the filesystem. These modules model the registry, the
-- commands find, diff, column, pwd and tac, and from s3fs the Unix metadata, the keys and the
-- temporary files.
--
-- Common: numbers, lists, byte strings and signed integers that the other modules share, maps as
-- lists of pairs, and package sort for strings. A Go string is the list of its bytes. ShellPath
-- is resolvePath, of which each command has a copy; Unicode is package unicode, a parameter. Utf8
-- decodes and encodes runes; Strconv, Net.Url, FileMode and Slashed (package path) are the parts
-- of the standard library that the code uses.
--
-- Find (command/internal/find): Find.Syntax has the types exprKind, action, options and token of
-- parser.go. Find.Operands has parseSize, parsePerm, parseSafeUint and the tests they use.
-- Find.Tree is buildExpressionTree: parseOr, parseAnd, parseNot and parsePrimary with their
-- shared error message as explicit state. Find.Arguments is parseExpression: one step per
-- argument, and finish at the end. Find.Glob is matchGlob of matcher.go, Find.Eval is eval with
-- needsStat, newerRefs and the other collectors. Find.Printf has processEscapes,
-- parseWidthPrecision, checkPrintf and applyWidth of printf.go, Find.Printf.Format has
-- formatPrintf. Find.Tree.Grammar and Find.Glob.Spec are descriptions: a grammar with four
-- levels, which takes only the types of tokens and expressions from the code, and a relation
-- between a pattern and a name, which takes from it only the type of the items of a bracket
-- expression. Find.Tree.Negated says where a -delete stands in an expression. For find.go:
-- Find.Filesystem has the calls that read and the phrases for errors, Find.Node the types effect
-- and node and what is read of a directory, Find.Walk the methods of the walker (evaluate, visit,
-- visitChildren, walkStart), Find.Apply has apply, runExec and deleteEntry over a state of the
-- world, and Find.Command has Exec. The walk only reads, so its effects are a list that a visit
-- returns; a read error that ends the search is a result of the visit, as the visit that meets it
-- ends.
--
-- Diff (command/internal/diff/diff.go): Diff has splitLines and the comparable lines, Diff.Write
-- and Diff.Grouped the five formats, Diff.Compare diffFiles, filesEqual and diffDirs, and
-- Diff.Command Exec with its options. The standard input is passed on from one read to the next,
-- since the first takes all of it. Diff.Ed describes ed: an editor with a buffer of lines and its
-- commands a, c and d, which the printed script is read into; a line that is a dot alone ends an
-- insertion there.
--
-- Column (command/internal/column/column.go): the fields of a line, formatTable and formatFill,
-- and in Column.Command readInput and Exec. Pwd (command/internal/pwd/pwd.go): absolutize,
-- realpath, whose 64 steps are its fuel, and Exec.
--
-- Registry (command/registry/registry.go): the type Impl with Register, Get, Names, Resolve,
-- Chdir and Exec. Each access to the state holds a mutex, and each operation is one step here.
-- Registry.Session has sequences of such steps.
--
-- Tac (command/internal/tac/tac.go): reverseLines, resolvePath and Exec.
--
-- S3fs.Unixmeta (s3fs/unixmeta/unixmeta.go): PosixMode, GoFileMode, Encode, Decode, and in
-- S3fs.Unixmeta.Lookup LookupUID and LookupGID. S3fs.Keys (s3fs/filesystem.go, s3fs/chroot.go):
-- cleanPath, key and the root of Chroot. S3fs.Temporary (s3fs/tempfs.go): the handles of a
-- temporary file over the buffer that they share; S3fs.Temporary.Names has the buffers by key;
-- S3fs.Temporary.Streaming has the steps of a writer and a reader in any order.
--
-- Numbers: sizes, modes and ids are natural numbers; a mode is read bit by bit by division.
-- Positions in a file are int64, whose sums wrap at 2^64. The counts that column's formatFill
-- computes from a width that the user gives are int64 too: a number of rows that is negative is
-- the panic of make, `none`. Other counts that the code holds in an int are natural numbers, as
-- no such count can pass the length of an input that fits in memory.
--
-- Fuel: the descent of Find.Tree has five units for each token and five more, as a token is read
-- behind at most five nested calls; parseExpression has one for each argument, as a round reads
-- at least one; matchGlob has the product of the lengths of pattern and name, each plus one, as
-- every return to a star moves it on in the name; visit and diffDirs have one for each level of
-- directories, as each call goes one level down; a number in decimal has the number itself, as
-- each digit divides it.
--
-- Parameters, which stand for code that is not in the repository: the classes and the case
-- mapping of package unicode, the regular expressions of package regexp, the calendar of package
-- time and the days between two times, Stat of the filesystem, the option parser, the databases
-- of users and groups, and the commands that the registry holds; the reading and removing calls
-- of the filesystem, the shell runner and its quoting for -exec; for diff package difflib, the
-- standard input and the time stamp of a file.
--
-- Not modelled: the cancellation of a context in the walk of find, the other commands, the
-- objects of s3fs behind the store's client, the programs under cmd, billysh, and the glue to
-- WebAssembly runtimes. Output streams that fail are not modelled.
pub mod Common
pub mod Utf8
pub mod Unicode
pub mod Strconv
pub mod Net
pub mod FileMode
pub mod Slashed
pub mod ShellPath
pub mod Find
pub mod Diff
pub mod Column
pub mod Pwd
pub mod Tac
pub mod S3fs
pub mod Registry
pub mod Tests
