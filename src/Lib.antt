-- ===== src/Lib.antt =====
-- TestForge, a test runner: tests are registered, selected by a filter, run one by one or by a pool
-- of workers, each with its deadline and its retries, and their results are classified, counted and
-- turned into the exit code of the process.
--
-- The files, and the code that each one models (paths from the root of the repository):
--   Base, Base/...       texts as lists of bytes, native numbers, signed numbers, lists
--   Keep, Sorting, StringMap, Decimal
--                        std::copy_if, std::sort, std::map and std::to_string as the code uses them
--   Strings/Case, Strings/Search, Strings/Glob
--                        src/core/StringUtils.cpp: toLower, toUpper, trim, equalsIgnoreCase,
--                        startsWith, endsWith, contains, containsIgnoreCase, isSensitiveName, globMatch
--   Strings/Pieces, Strings/Shaping, Strings/Markup, Strings/Reading
--                        split, splitLines, join, truncate, padRight, padLeft, toHex, escapeXml,
--                        escapeHtml, parseInt, parseBool
--   CommandLine, CommandLine/Options, CommandLine/Selected
--                        src/cli/CommandLine.cpp, with the filter and the selection it makes
--   Url, Url/Percent, Url/Policy
--                        src/net/Url.cpp: parseUrl, joinUrl, Url::toString, urlEncode, urlDecode,
--                        parseQuery, UrlPolicy
--   Status               include/testforge/core/Status.hpp, src/core/Status.cpp
--   Json, Json/Access    src/core/Json.cpp: Value with its accessors, look-ups, changes and equality
--   Json/Text/Escape, Json/Text/Printer
--                        appendUtf8, escapeInto, quote, dumpInto
--   Json/Text/Outcome, Json/Text/Literal, Json/Text/Number, Json/Text/Parser
--                        class Parser with its errors, formatDouble, parse and tryParse
--   Json/Names, Json/Text/...
--                        the proofs about the two
--   Specs, Specs/Reading, Specs/Writing
--                        src/ai/TestSpec.cpp: specifications of tests, read and written as JSON
--   Specs/Safety, Specs/Checks, Specs/Validator
--                        src/ai/SpecValidator.cpp, with the checks of one test in their order
--   Specs/Permitted      what a test must be like to run, without the validator
--   Http, Http/Headers   src/net/HttpTypes.cpp: headers, requests and responses
--   Ids                  src/core/Ids.cpp: fnv1a64 and testId
--   TestCase             include/testforge/core/TestCase.hpp: TestMetadata, with its toJson
--   Registry             src/testing/TestRegistry.cpp, one function per operation under its lock
--   Selector             src/testing/TestSelector.cpp: TestFilter and TestSelector::select
--   Classifier           src/execution/FailureClassifier.cpp
--   Cancellation         src/core/CancellationToken.cpp: the state that source and tokens share
--   ThreadPool           src/execution/ThreadPool.cpp: its critical sections as a step relation
--   TestResult           src/core/TestResult.cpp: results, statistics and exit code
--   Runner/Context       src/core/TestContext.cpp, and applyContextOutput of TestRunner.cpp
--   Runner/Body          src/execution/TestRunner.cpp: executeBody, describeAbandonedTest,
--                        overrideVerdictForCancellation
--   Runner/Waiting       awaitBoundedBody and OrphanReaper
--   Runner/Attempt       TestRunner::runOne
--   Runner/Retries       executeWithRetries, handleResult and the sequential path of TestRunner::run
--   Runner/Whole         the sequential path with the executions of runOne, and its exit code
--   Examples/...         tests at concrete inputs
--
-- The command line makes a filter and a selection (CommandLine/Selected uses Selector). The runner
-- selects from the registry (Selector uses Registry), makes a test by its factory, runs its body in
-- a context (Runner/Body uses Runner/Context), asks the classifier for the status of an exception
-- and, after the body, for a more precise category from the facts that the test recorded
-- (Classifier reads them by Json.find), and reads the test's and the run's cancellation sources
-- (Cancellation). A retry asks the classifier whether a category is retryable. The exit code reads
-- the statuses and categories of the results.
--
-- Parameters: the C library's snprintf and strtod on doubles, the clocks, std::shuffle, the
-- factories and bodies of tests, the diagnostics of a failure, and what each round of the wait sees
-- of other threads. The loop over the attempts takes runOne as a parameter, and Runner/Whole puts
-- it in.
--
-- Bounds and fuel. Texts are lists of bytes. Sizes, counters and durations have no upper bound here;
-- the hash is taken modulo 2 ^ 64 as the source's std::uint64_t is. The loop of globMatch runs on
-- fuel that the lengths of the text and of the pattern give: every move of the remembered star
-- consumes a byte of the text, and every round between two moves one of the text or of the pattern.
-- The wait for a body runs on fuel as well, one unit a round, which the clock's reaching the deadline
-- bounds. Decimal digits are written with one more unit of fuel than the number, of which every digit
-- takes one.
--
-- The JSON parser runs on a fuel of thrice the length of the text, as an opening bracket takes three
-- calls. A depth in spaces is not bounded, where the source has an int.
--
-- Not modelled: configuration, the HTTP client and server, redactSecrets, SQLite, diagnostics,
-- reports, the AI providers, the REST service, log output, observers and persistence of a run, the
-- join of threads and the parallel path of TestRunner::run. In statistics the rates, which are
-- doubles, are left out.
pub mod Base
pub mod Strings
pub mod Status
pub mod Json
pub mod Classifier
pub mod Ids
pub mod TestCase
pub mod StringMap
pub mod TestResult
pub mod Registry
pub mod Cancellation
pub mod ThreadPool
pub mod Keep
pub mod Sorting
pub mod Selector
pub mod Examples
pub mod Decimal
pub mod Runner
pub mod Url
pub mod CommandLine
pub mod Http
pub mod Specs
pub mod Clock
