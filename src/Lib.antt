-- ===== src/Lib.antt =====
-- The control plane and the services of goodputlab, a laboratory that measures how LLM serving
-- topologies behave under load.
--
-- Floats are an abstract type: `Prelude.Float.FloatOps` lists the operations that the code calls,
-- and the few theorems that need laws of them take `FloatLaws`. Integers are ℤ over the native ℕ,
-- and counts that cannot be negative are ℕ. A dictionary is an association list in insertion
-- order (`Prelude.Dict`), an OrderedDict is one too, and strings are lists of code points
-- (`Prelude.Text`). A raised exception is the `raise` of `Prelude.Result`. Loops over lists are
-- structural recursion. The step loop of a sample runs on the number of steps that the code
-- allows it, and raises at the end of them as the code does.
--
-- Files and the code they model:
--   Core/Trace       core/trace.py, request and trace data with the validators; Trace/Valid is about
--                    that of telemetry
--   Core/Reconcile   core/metrics.py and core/reconcile.py, after the parser of the metrics text
--   Control/Pool     control/pool.py
--   Control/Pid      control/pid.py; Pid/Clamp has its theorems
--   Control/Autoscaler  control/autoscaler.py; the theorems are in Autoscaler/Decisions (bounds
--                    and drain) and Autoscaler/Dwell (time between flips)
--   Control/Router   control/router.py; Router/Admission describes the outcomes of `route`,
--                    Router/Decisions, Router/Sticky, Router/Cache and Router/Recency have the theorems
--   Obs              obs/registry.py, the metrics as the sequence of operations on them
--   Kv/Lmcache       kv/lmcache_client.py, the mock client; Lmcache/Accounting and Lmcache/Calls
--   Kv/TierPolicy    kv/tier_policy.py
--   Spec/Eagle       spec/eagle.py; Eagle/Gate has the theorems
--   Bench/KvScaling/Theory  bench/kv_scaling/theory.py; Theory/Exact has the theorems
--   Bench/KvScaling/Engine  the driver protocol of bench/kv_scaling/measure.py, as a record of
--                    operations on the states of an engine
--   Bench/KvScaling/Window  sample_decode_window of that file, over any engine, with what it
--                    knows of its batch in Window/Batch; Window/Gate and Window/Sound lead to
--                    Window/Readings
--   Bench/KvScaling/Fake    FakeBlockPool and FakeEngineDriver; Fake/Requests and Fake/Calls are
--                    about sequences of calls, Fake/Release about the end of a sample, and
--                    Fake/Complete, with Uniform, Lockstep, Sampled, Rounds and Added, about a
--                    whole one
--   Bench/KvScaling/Cells   the cell record of bench/kv_scaling/schema.py, run_cell of measure.py and
--                    the artifacts of results.py; Cells/Measured has the theorems
--   Bench/KvScaling/Fit     the percentiles and records of bench/kv_scaling/schema.py, and from
--                    measure.py the fit, the knee, the gates and the preflight; Fit/Knee has the theorem
--   Bench/Matrix/Cells  bench/schema/cell_schema.py and the MatrixSpec of bench/runpod_matrix.py;
--                    Cells/Count has the theorems
--   Bench/Matrix/Metrics    aggregate_metrics of bench/cell_runner.py and the shares of a cell;
--                    Metrics/Successes has the theorem
--   Bench/Matrix/Config     bench/schema/matrix_config.py; Config/Restrict has the theorem
--   Bench/Matrix/Preflight  bench/preflight.py but its texts; Preflight/Sampling leads to Preflight/Fits
--   Bench/Matrix/Aggregate  bench/matrix_aggregator.py; Aggregate/Complete and Aggregate/Totals
--   Bench/Matrix/Sweep  run_cell of bench/cell_runner.py over the directory of results, and the
--                    sweep of bench/runpod_matrix.py; Sweep/Resume and, over Sweep/Names,
--                    Sweep/Finished have the theorems
--   Bench/Matrix/Summary  the summary statistics of bench/schema/cell_schema.py
--   Loadgen/Sse      loadgen/sse.py; Sse/Frame has the round trip from a server's lines
--   Loadgen/Arrival  PoissonArrival and the schedule of loadgen/arrival.py; Arrival/Order has the
--                    theorem
--   Loadgen/Client   loadgen/client.py, one request: what httpx does is an argument.
--                    Client/Lines compares its loop with the parser, Client/Outcome is about send_one
--   Loadgen/Replay   the run of loadgen/client.py over a schedule, which loadgen/replay.py calls, as
--                    a step relation on its tasks; Replay/Slots, over Replay/Tasks, Replay/Progress
--                    and Replay/Routing have the theorems
--   Bench/Orchestrator      bench/orchestrator.py; Orchestrator/Routing has the theorem
--   Scripts/Proxy    scripts/disagg_proxy.py, the completion routes, with what they send in
--                    Proxy/Messages; Proxy/Bodies is about the first stage's body, Proxy/Stages about
--                    the two stages, and Proxy/Probes has the other routes
--   Scripts/RunMatrix       scripts/run_matrix.py; RunMatrix/Gates is about what happens before a sweep
--                    and RunMatrix/Exits about what follows it
--   Scripts/AutoscalerLive  scripts/autoscaler_live.py; AutoscalerLive/Drained has the theorem
--   Tests            concrete runs of the theorems, on fixed point numbers of three decimals
--
-- The router reads pool states, counts in the metrics registry and takes requests of Core/Trace;
-- the autoscaler runs one PID controller per pool and counts its thrashing in the same registry;
-- the tier policy reads the statistics of the LMCache client. The run_matrix command takes the
-- cells of a configuration through the preflight and the sweep to the aggregation of the directory
-- that the sweep leaves, and the live experiment feeds the metrics of one server to the autoscaler.
-- The dry run of Bench/Orchestrator routes each request of a client's run.
--
-- Not modelled: SHA-256 and the random module (parameters), prometheus_client (the registry is
-- the sequence of calls on it), HTTP, the event loop of asyncio (a run takes the steps of its tasks
-- in any order), the file system, the parser of the metrics text and vLLM, which are libraries; the
-- on-off arrivals; the generators of texts, which draw on the random module throughout; plots,
-- the writers of text reports, the mock server, and the scripts that only time a server.
pub mod Prelude
pub mod Core
pub mod Control
pub mod Obs
pub mod Kv
pub mod Spec
pub mod Bench
pub mod Loadgen
pub mod Scripts
mod Tests
