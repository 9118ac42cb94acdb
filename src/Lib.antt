-- ===== src/Lib.antt =====
-- cicache: a caching HTTP(S) proxy for build jobs, in Rust. This library models its core.
--
-- A job's requests go through the proxy (src/proxy.rs). `Policy` decides whether a request may be
-- served from the cache, under what key, and whether a response may be stored. A stored response is
-- an `Entry`. The store (src/store.rs) keeps entries on local disk and, through the client `Gha`,
-- in the cache service of GitHub Actions, small ones together in one `Pack`. `Stats` counts it all.
--
-- Files:
--   Prelude, Prelude/Tests, Prelude/Lists   Boolean tests and lists over the native numbers
--   Text, Text/*     the parts of Rust's `str`, `String` and integer conversions that are called;
--                    a `&str` is the list of its UTF-8 bytes
--   Http, Http/Instance   interfaces of the header map and of the `url` crate, with a concrete map
--   Pack, Pack/*     src/pack.rs: `encode`, `decode`; a round of a loop is a function of its own
--   Entry, Entry/*   src/entry.rs: `Entry::new`, `encode`, `decode`, `header_map`
--   Policy, Policy/* src/policy.rs: `request_eligible`, `response_storable`, `is_bypassed`, `key`
--   Stats, Stats/*   src/stats.rs: `record` (here `record_request`), `record_upload`, `record_packed`;
--                    Stats/Render has the text of a line of the log, `human_bytes` and `render`
--   Gha, Gha/*       src/gha.rs: `from_env`, `rpc`, `fetch`, `get`, `put`, `get_scoped`, `put_scoped`
--   Store, Store/*   src/store.rs: `get`, `put`, `load_pack`, `save_pack`, `load_index`, `save_index`;
--                    Store/Uploads has `upload_loop`, as the relation `Step`, and `flush`;
--                    Store/KeySet has the set of keys behind the manifest, as a quotient, and
--                    Store/Kept and Store/Carried, and Store/Underway, Store/ManifestSent and
--                    Store/Listed, follow one object through a job, its pack or its manifest, and
--                    the next job
--   Proxy, Proxy/*   src/proxy.rs: `sanitize`, `insert_cache_header`, `build`, `replay`;
--                    Proxy/Serving has `handle`, `fetch_and_store` and `forward`, and
--                    Proxy/Dispatch `dispatch`, `control`, `connect` and `absolute_url`;
--                    Proxy/Sessions is `serve`, as the relation `ServeStep`, Proxy/Preservation what
--                    every step of it keeps, and Proxy/Clients the clients of `Proxy::new`
--   Ca, Ca/*         src/ca.rs: `generate`, `server_config`, `trust_bundle`, `write_files`, `pem_encode`
--   Cli, Cli/*       src/main.rs: Cli/Launch has `scope`, `to_run_args`, `environment` and
--                    `export_environment`, Cli/Curlrc `write_curlrc` and `clear_curlrc`, Cli/Keychain the
--                    keychain commands, Cli/Waiting `wait_for_state` and `run_bounded`, Cli/Report what
--                    `stop` prints, Cli/Start `start`, Cli/Run and Cli/Run/Process `run`, Cli/Teardown `stop`;
--                    Cli/Run/NextJob and Cli/Run/LargeNextJob are two jobs, one after the other, and
--                    Cli/Run/Filed is about what a run queues and lists
-- State is passed on explicitly: the counters and the log in `Stats`, the service's world and the
-- flag `exhausted` in `Gha.State`, and in `Store.Store` the disk, the client, the sets, the
-- queue and the running tasks. Each module's `Tests` runs the model on concrete values.
--
-- Parameters, since their code is not in the repository: hyper's header types (`Http.HeaderLib`),
-- the `url` crate (`Http.UrlLib`), serde_json and the digest (`Entry.Codec`), the HTTP client
-- with the service behind it (`Gha.Net`), the file system (`Store.Fs`), the clients that send
-- requests upstream (`Proxy.Serving.Upstream`), rcgen, rustls and base64 (`Ca.CertLib`), the
-- platform's trust store (`Ca.Roots`), `f64` (`Stats.Render.FloatLib`), and the machine that `start`,
-- `run` and `stop` run on (`Cli.Start.Machine`, `Cli.Run.Process.System`, `Cli.Teardown.Host`). What is
-- relied on of them is stated by the records of laws beside them (`HeaderLaws`, `TextLaws`,
-- `CodecLaws`, `UrlLaws`, `PartLaws`, `FsLaws`, `FloatLaws`, `ReadsBack`).
--
-- Bounds: an integer that is written to a fixed width wraps at that width; the counters wrap at
-- 2 ^ 64. Lengths in memory are below 2 ^ 63, as Rust's allocations are; the theorems that need it
-- say so. A panic is the value `panicked`. The loop of `Pack.decode` runs on fuel, one more than the
-- length of its input; every round consumes at least twelve bytes, so this is enough, as is shown.
-- The loops of src/main.rs that wait for a file or a process see one poll per round and run on fuel; a
-- round in which the clock has passed the deadline is the last, so its number is enough, as is shown.
-- Builds are taken to be release builds, in which a sum that overflows wraps.
--
-- The tasks of `upload_loop` interleave with each other and with the requests in any order, up to the
-- bound on the tasks. Requests run at the same time, also while `flush` does (`Cli.Run.Closes`), and may
-- be dropped where they wait: a step of `ServeStep` is a whole request or a `Part` of one, any part
-- at any time, which allows more than the program does. An upload, a lookup, a store, the writing of
-- the manifest or of the pack, and the recording of a request by its counters and its line are
-- each one step. A write to the log may fail or be cut; `Stats.LogFile` says which do.
--
-- Not modelled: the proxy's sockets, the TLS handshake and the copying of bytes in a tunnel, which
-- are calls of tokio, rustls and hyper; of src/main.rs the parsing of the command line by clap, the
-- runtime of tokio and what `run` prints; of src/store.rs the lines on standard error.
pub mod Prelude
pub mod Text
pub mod Pack
pub mod Http
pub mod Entry
pub mod Policy
pub mod Stats
pub mod Gha
pub mod Store
pub mod Proxy
pub mod Ca
pub mod Cli
