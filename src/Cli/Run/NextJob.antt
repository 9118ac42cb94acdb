-- ===== src/Cli/Run/NextJob.antt =====
-- src/main.rs, over src/proxy.rs and src/store.rs: a response that one job stores, in the next job.
use cicache.Entry
use cicache.Gha
use cicache.Gha.Sends.{Sends}
use cicache.Store.{Store}
use cicache.Proxy.Serving.{Proxy}
