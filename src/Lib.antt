-- ===== src/Lib.antt =====
-- The result tools of gHALO: what the Python programs under tools/ compute from a benchmark's result
-- directories.
--
-- Parts.
-- * tools/analyze_iteration_stalls.py finds the stalled iterations of one result directory.
--   `Stalls` has its data and exceptions; `Stalls.Load` reads ghalo.json and the cells of the CSV
--   files (`load_samples`, `parse_int`, `parse_float`); `Stalls.Readers` has the three CSV readers;
--   `Stalls.Samples` has `longest_stall_free_sequence` and `classify_sample`; `Stalls.Phases` has
--   `phase_category` and `analyze_phase_records`; `Stalls.Ranks`, with `Event` and `Tally`, has
--   `local_phase_value` and `analyze_rank_records`; `Stalls.Paths` has the helpers on paths, and
--   `Stalls.Discover` `result_dirs_from_inputs` and `discover_result_dirs`;
--   `Stalls.Case` and `Stalls.Summary` have `analyze_case`, which calls all of these, and
--   `Stalls.Rows` and `Stalls.Report` `markdown_report` and the cases of `main`. The loops'
--   accumulators are records (`PhaseTally`, `RankTally`, `StallTally`), one function is a round.
-- * tools/compare_rccl_versions.py compares cases across ROCm versions. `Versions` has
--   `event_lengths`, `Versions.Checks` the checks on one result, `Versions.Report`
--   `summarize_result`, which calls `analyze_case`, `Versions.Matrix` `validate_complete_matrix`,
--   `Versions.Discover` the directories and the composition of them all in `main`, and
--   `Versions.Print` `markdown_report`.
-- * tools/migrate_results.py moves flat bundles into the versioned hierarchy. `Migrate` has the
--   functions on names, `Migrate.Bundle` `infer_bundle` with what it calls, and `Migrate.Place`
--   `unique_destination` and `candidate_bundles`. `Migrate.Copy` has the loop of `main`: its state is
--   the list of the paths that exist, and an input is read when the loop reaches it. `mkdir` and
--   `shutil.copytree` are parameters: each says what it creates and whether it raises, which ends the
--   loop (`Trace`).
-- * tools/ghalo_analyze.py reads runs, compares and aggregates them. `Analyze.Numbers` has its readers
--   of numbers and Slurm texts, `Analyze.RunName` and `Analyze.PathMetadata` what a path says of a
--   run, `Analyze.Labels` the loop of `run_labels` and `filename_slug`. `Analyze.Results` has
--   `RunResult`, with `Results.Read` its two readers and `Results.Valid` `validate_run`;
--   `Analyze.Run` has `Run`, with `Run.Texts`, `Run.Counts` and `Run.Title` its properties;
--   `Analyze.Load` `load_run` and `load_runs`. On these stand `Analyze.Order` and `Analyze.Keys`, the
--   keys that sort, group and pair runs, `Analyze.Compare` (`compare_rows`), `Analyze.Pairs`
--   (`percent_difference_pairs`), `Analyze.Aggregate` (`percentile`, `aggregate_rows`),
--   `Analyze.Scaling` (`choose_baseline`, `scaling_rows`), `Analyze.Summary` (`phase_categories`,
--   `summary_rows`), `Analyze.Plot` (labels, axes, ticks and titles) and `Analyze.Output` (the
--   markdown and text tables). Rows that later code reads by name are records; those that are only
--   written are lists of columns (`Cells`). A command is modelled up to the writing of its rows.
-- * `KeyValue` has the reader of key=value files, which all four share.
-- * `Prelude`, `Sort`, `Dict`, `Result`, `Text`, `Json`, `Statistics` and `Float` have what the tools
--   use of Python, with its laws. `Examples` has tests, and the theorems at small inputs.
--
-- How values correspond.
-- * A `str` is the list of its code points (`Text`). White space and line boundaries are Python's;
--   case folding and digits are those of ASCII. An `int` is a `ℤ`, or a `ℕ` where it counts.
-- * A `float` is an interface (`Float`): the operations that the tools call, the built-in `sum` and
--   `str`, `math.fsum`, `statistics.pstdev` and `statistics.stdev` among them. NaN is no value of it,
--   and division has a value for every divisor: the divisors of `compare_rows` and `scaling_rows` are
--   times that `validate_run` has found positive. The theorem that needs an order has it as a
--   hypothesis (`FloatOrder`), which `Float.Micro` fills for whole millionths.
-- * `math.ceil(0.9 * n)` and `math.ceil(0.8 * n)` are the exact ceilings `(9 * n + 9) / 10` and
--   `(4 * n + 4) / 5`: below 2 ^ 50 the rounding of the product does not reach the next integer.
-- * A `dict` is a list of entries in the order of first insertion (`Dict`); a `Counter` and a
--   `defaultdict(list)` are such lists too. `sorted` is the stable insertion sort `sort_by`.
-- * An exception is the error of a `Result`: the tools' own messages are data with the values that
--   they show, and the built-in ones that a conversion or a lookup raises are named (`Builtin`). A
--   warning is data too (`Warning`). `analyze_phase_records` returns warnings that are always empty,
--   and they are left out.
-- * A file is absent, empty, or what it holds (`JsonFile`, `CsvFile`, an `Option` of a text). A row
--   of a CSV file has a cell for each column of the header. A path is the list of its parts.
-- * A JSON object has different keys, and a code point above 127 counts as printable in its `repr`.
--   `dict` of a list of pairs is not taken. `str` of a JSON value that is not a text, which
--   `infer_bundle` calls, is a parameter there, and `str_of` of `Json.Show` in the loop of `main`.
-- * The files below a path are what the tools ask of the file system (`Tree`, `Folders`, `RunFiles`).
--   A file that exists can be read.
--
-- Loops. All are structural, but three. `show_nat`, Python's `str` of an int, has n + 1 as fuel, which
-- is enough as each round drops a digit. The loop of `normalize_label` has the length of the label as
-- fuel, which is enough as each round shortens the label. The loop of `unique_destination` returns
-- nothing when its fuel is spent; one more than the number of existing paths is enough, as the
-- candidates are different paths.
--
-- Not modelled: the other report files, rows in CSV and JSON, the calls of matplotlib, command lines
-- and the copying itself, which are input and output; the C++/HIP benchmark, its shell scripts and its
-- tests.
pub mod Prelude
pub mod Sort
pub mod Dict
pub mod Result
pub mod Text
pub mod Float
pub mod Json
pub mod Statistics
pub mod KeyValue
pub mod Stalls
pub mod Migrate
pub mod Versions
pub mod Analyze
pub mod Examples
