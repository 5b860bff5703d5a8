-- ===== src/Lib.antt =====
-- go-luarocks: a library that manages LuaRocks packages ("rocks") for Tarantool.
--
-- The program's parts and the files here that model them.
--
--   types.go                 Types      the records that the packages share
--   deps/version.go          Deps/Version: `ParseVersion` is parse_version, with its loop parse_tokens;
--                            `Equal` is equal and `Compare` is compare. Proofs: Order (the order that
--                            Compare makes), Ends (the loop ends), Dotted and DottedRock (numeric versions)
--   deps/constraint.go       Deps/Constraint: `ParseConstraint`, `ParseConstraints`, `Match` (match_all),
--                            `matchOne` and `partialMatch`; `formatConstraints` of resolver.go. Proofs: Interval
--                            (what bounds accept), Ends (the loop ends),
--                            Printed and RoundTrip (formatConstraints read back)
--   deps/resolver.go         Deps/Resolver: `Resolve` is resolve, `walk` is walk, whose loop body is visit,
--                            visit_checked, visit_wanted and choose, one after the other; `pickNewest` is
--                            pick_newest. Proofs: Pick, Invariant, Sound, Ends, InstallOrder
--   rockspec/platforms.go    Rockspec/Platforms: `MergePlatforms` and the merges that it calls.
--                            Proofs: Merge
--   rockspec/validate.go     Rockspec/Validate: `Validate` is validate. Proofs: Accepts
--   manif/writer.go          Manif/Writer: `Write` is write, as the text that it sends
--   manif/parser.go          Manif/Lexer (white space, strings, numbers) and Manif/Parser (`Parse` is parse).
--                            Proofs: Manif/Quoted (strings), Manif/Integers (integers) and Manif/Tables: the
--                            entries of a table and their order (Order, Entries), how they are read one by
--                            one (Rows, Begins, Reading, Loops), values (RoundTrip) and files (WholeFile)
--   manif/store.go           Manif/Store: the tables (`manifestToTable`, `rockManifestToTable`), Store/Decode and
--                            Store/DecodeTree (`rockManifestFromTable`, `manifestFromTable`), Store/FileStore
--                            (`writeAtomic` and the four methods of FileStore). Proofs: Atomic (what happens to
--                            the files), Paths, Prefixes, Branches and Flatten (the tree of a directory's
--                            paths), RockTable, RockEntries and RockFile (the rock manifest)
--   tree/paths.go, tree.go,  Tree/Layout: the directories, `Open` (open_tree) and `Which`
--   which.go
--   tree/conflicts.go        Tree/Conflicts: `resolveSpot`, `MungedPath`, `ModuleIndex`. Proofs: Spots (what
--                            becomes of the files), Winner (the order of the rocks)
--   tree/deploy.go           Tree/Sources (`resolveModule`, `installDest`), Tree/Wrapper (`binWrapperScript`,
--                            `luaQuote`, `shellQuote`), Tree/Deploy (the stages of `Deploy` and `copyFile`),
--                            Tree/Deploy/Subtrees (the last stage, and `Deploy` itself) and
--                            Tree/Deploy/Removal (`DeleteVersion`). Proofs: Placed, Found, Removed,
--                            ShellWords, LuaStrings
--   client/client.go         Client/Providers: `upsertProvider`, `removeProvider`, `manifestProvider`,
--                            `resolveInstalledDeps`. Proofs: Index, Kept
--   client/native.go         Client/Source (`kindOf`, `findSourceBaseDir`, `checkSupportedPlatforms`,
--                            `binarySpec`) and Client/Engine (`deployRock`, its two callers, and `Remove`).
--                            Proofs: Supported, Forget, History, Failed
--   remote/remote.go,        Remote/Manifest (what is read from a server's manifest, and the URLs of its rocks),
--   search.go, file.go,      Remote/Loading (`decodeManifest`, and `load` of FileRemoteIndex, which is
--   index.go                 load_directory), Remote/Index (`Query` of HTTPRemoteIndex is query), Remote/Index/Local
--                            (`Query` of FileRemoteIndex is file_query, and that of OrderedIndex is
--                            ordered_query), Remote/Server (`NormalizeServer`) and Remote/Search (`Search` is
--                            search). Proofs: Picked and FirstFound (indexes), Sound and Complete (the rows of
--                            a search)
--   build/flags.go,          Build/Flags, Build/Vars (with the variables of build/make.go) and
--   vars.go, subprocess.go   Build/Environment: `deriveFlagsFor`, `buildVars`, `substituteVars`, `mergeEnv`.
--                            Proofs: References, Merged
--
-- Resolve uses the versions and constraints of deps, and calls an index and a fetcher that the caller
-- gives it; Validate compares formats as versions; FileStore lays a manifest out as a table, has Write
-- make its text and Parse read it, and is the ManifestStore of tree and client.
--
-- deployRock reads the manifest of the tree, hands its providers to Deploy, which asks them in resolveSpot,
-- and records the files that Deploy reports; Remove calls DeleteVersion and takes the rock out again.
--
-- Search and Query read the manifests of the servers through a function that they are given, compare
-- versions and constraints by deps, and take the keys of a manifest in their order.
--
-- The files are a list of paths with what stands there (Files/Disk), and Files/FilePath and Files/Strings
-- are what the code uses of path/filepath and strings. A call is a function from the files to the files and
-- a value or a fault. There are no links, no permission is lacking and no device fails; a path is known by
-- its cleaned text, so a relative path is not that of an absolute one. A Go map that is ranged over is taken
-- in the order of its list, which may be any. The md5 and the parser of gopher-lua are functions of the
-- record Host, and RunBackend of build is an argument. The manifest store is the record ManifestStore, which
-- FileStore fills; fmt's "%v" and the conversion of a float64 to an int are in the record Conversion.
--
-- A Go string is the list of its bytes. A Go map is an association list, and in Manif the list of its
-- entries by ascending key. A pair (value, error) is a Result, whose errors are constructors in place
-- of messages; a panic is an error too. A regular expression is the scan that it stands for: in each of
-- them the character classes that follow one another are disjoint, so the greedy match is the only
-- one, and `.` is any byte but a line feed.
--
-- float64 is a parameter: Deps/Float names the operations that deps uses and the laws of their
-- comparisons, over the values other than NaN with -0 and 0 as one; Deps/Scaled shows numbers that meet
-- them. Manif/Value names what strconv and math do with a float64.
--
-- The index (RemoteIndex), the fetcher, the lookup of installed rocks and the context of Resolve are
-- functions in the record Resolver; sort.SliceStable is the insertion sort that it is up to twenty
-- elements. The sink of Write takes all that it is sent. The load of a server's manifest
-- in remote, over HTTP or from a directory, is a function of the server and the namespace to
-- Query and Search; the readers of zip files and of JSON are functions too.
--
-- Fuel. The loops over a text get its length, or three times its length, as fuel, since each round takes
-- a byte at least. The depth of the walk of Resolve is fuel, of which one more than the number of names
-- that can be asked for is enough. The theorems named ..-ne-out_of_fuel say where that is proved.
--
-- The depth of a walk over a directory is fuel too, given by the caller of Deploy; that some depth is
-- enough is not proved.
--
-- Not modelled: the fetchers, the backends of build and the processes they run, how a remote index
-- loads a manifest over HTTP and caches it, the lua engine, the installation order and the packing of the native
-- engine, and the evaluation of a rockspec by gopher-lua, which are file, network, process and Lua code.
pub mod Prelude
pub mod Types
pub mod Files
pub mod Samples
pub mod Tree
pub mod Client
pub mod Build
pub mod Deps
pub mod Rockspec
pub mod Manif
pub mod Remote
