-- ===== src/Cli/Run.antt =====
-- src/main.rs: `run`, from the store that is opened to the summary that is written. The settings
-- come from the flags; the libraries, the upstream clients among them, from `Setup`.
pub mod NextJob
pub mod LargeNextJob
pub mod Process
pub mod Filed
pub mod Reported
use cicache.Prelude.{ℕ, ◌≡◌, Bool, true, false, Option, none, some, List, [], ◌∷◌}
use cicache.Text.Utf8.{Bytes}
use cicache.Policy.{Policy}
use cicache.Pack.{Run, returned}
use cicache.Gha.{GhaCache, State}
use cicache.Stats.{LogFile, Summary}
use cicache.Store.{Store, StoreConfig, new, load_index, load_pack, save_index, save_pack}
use cicache.Cli.Launch.{ProxyArgs, scope_of}
use cicache.Proxy.Serving.{Setup, Proxy}
use cicache.Proxy.Sessions.{Listener, Serves}

abbrev pub policy_of : ProxyArgs → Policy
policy_of a = record {
  min_size = a.min_size;
  max_size = a.max_size;
  min_max_age = a.min_max_age;
  cache_all = a.cache_all;
  cache_authorized = a.cache_authorized;
  extra_bypass = a.bypass;
  key_prefix = a.key_prefix;
}

-- `gha` is what `from_env` gives.
abbrev pub config_of : (Bytes → Option Bytes) → Option GhaCache → ProxyArgs → StoreConfig
config_of var gha a = record {
  gha = gha;
  key_prefix = a.key_prefix;
  scope = scope_of var a;
  pack_threshold = a.pack_threshold;
  pack_limit = a.pack_limit;
  concurrency = a.upload_concurrency;
}

-- The proxy of these settings.
abbrev pub configured : Setup → (Bytes → Option Bytes) → Option GhaCache → ProxyArgs → Setup
configured setup var gha a = record setup {
  policy = policy_of a;
  config = config_of var gha a;
  mitm_ports = a.mitm_ports;
}

module _ (setup : Setup) where
  open setup use {net, fs, up, config}

  unfoldable pub opened_store : fs.Disk → State net → Run (Store net fs)
  opened_store disk remote =
      load_pack net fs config (load_index net fs config (new net fs disk remote))

  -- The log is the one that `open_log` opens.
  abbrev pub listening : LogFile → up.World → Store net fs → Listener setup
  listening before world s = record {
    proxy = record { store = s; log = some before; world = world; shutdown = false };
    tasks = [];
    decrypted = [];
  }

  abbrev pub with_store : Listener setup → Store net fs → Listener setup
  with_store l s = record l { proxy = record l.proxy { store = s } }

  -- `flush` and what goes on meanwhile: the connections that were accepted, their requests and tasks
  -- are served on after `serve` has ended. The sender is dropped at `l`; at `m` nothing is left to
  -- upload and the manifest is written, and at `n` the pack is; at `e` the counters are read.
  pub record Closes (stamp : ℕ) (run_id : Bytes) (l m n e : Listener setup) : Type 0 where
    pub drains : Serves setup (with_store l (record l.proxy.store { is_open = false })) m
    pub idle : m.proxy.store.channel ≡ []
    pub empty : m.proxy.store.tasks ≡ []
    pub goes_on :
        Serves setup (with_store m (save_index net fs config stamp run_id m.proxy.store)) n
    pub ends : Serves setup (with_store n (save_pack net fs config stamp run_id n.proxy.store)) e

  -- A run that gets as far as the summary: the proxy when that is made, and the summary.
  pub data Ran (disk : fs.Disk) (remote : State net) (before : LogFile) (world : up.World)
      (stamp : ℕ) (run_id : Bytes) : Proxy setup → Summary → Type 0 where
    ran :
        (s : Store net fs) (l m n e : Listener setup)
        → opened_store disk remote ≡ returned s
        → Serves setup (listening before world s) l
        → Closes stamp run_id l m n e
        → Ran disk remote before world stamp run_id e.proxy e.proxy.store.counts
