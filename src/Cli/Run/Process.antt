-- ===== src/Cli/Run/Process.antt =====
-- src/main.rs: the whole of `run`, with the files it leaves in the state directory.
use cicache.Prelude.{ℕ, ◌≡◌, Bool, true, false, not, Option, none, some, if◌then◌else◌}
use cicache.Text.Utf8.{Bytes, codes}
use cicache.Pack.{panicked, returned}
use cicache.Gha.{GhaCache, Result, ok, err}
use cicache.Gha
use cicache.Stats.{LogFile, Summary}
use cicache.Store.{Fs, Store}
use cicache.Ca.{CertLib, Ca, Roots, generate, write_files}
use cicache.Proxy.Clients.{Builder, new_clients}
use cicache.Proxy.Serving.{Setup, Proxy}
use cicache.Proxy.Sessions.{Listener, Serves}
use cicache.Cli.Launch.{ProxyArgs, State}
use cicache.Cli.Run.{configured, opened_store, listening, Closes}

-- What `run` asks of the machine: whether the crypto provider is installed and the directory made,
-- the port it listens on when it asks for one, the log that is opened, the clients, and
-- the JSON of a state and of a summary. `dir` holds the files of the state directory; a path in it
-- is displayed as a text. A call that fails gives `none`, or `false`.
pub record System : Type 1 where
  pub certs : CertLib
  pub dir : Fs
  pub Client : Type 0
  pub provider_installed : Bool
  pub directory_made : Bool
  pub roots : Roots
  pub bind : ℕ → Option ℕ
  pub log_opened : Option LogFile
  pub build : Builder → Option Client
  pub pid : ℕ
  pub display : dir.File → Bytes
  pub state_json : State → Option Bytes
  pub summary_json : Summary → Option Bytes

-- The call at which `run` fails.
pub data Failure : Type 0 where
  no_provider no_directory not_bound no_log pack_panicked no_clients : Failure
  state_not_written not_accepted summary_not_written : Failure
  no_authority : Bytes → Failure

module _ (sys : System) where
  open sys use {certs, dir, roots, bind, log_opened, display}

  abbrev pub state_path : dir.File
  state_path = dir.path (codes "state.json")

  abbrev pub summary_path : dir.File
  summary_path = dir.path (codes "summary.json")

  abbrev pub log_path : dir.File
  log_path = dir.path (codes "requests.log")

  -- What is there before the store is made.
  pub record Prepared : Type 0 where
    pub ca : Ca certs
    pub ca_path : dir.File
    pub bundle_path : dir.File
    pub port : ℕ
    pub before : LogFile

  pub data Preparation : Type 0 where
    failed : Failure → Preparation
    ready : Prepared → Preparation

  open_log : Ca certs → dir.File × dir.File → ℕ → Option LogFile → Preparation
  open_log ca paths port none = failed no_log
  open_log ca (ca_path, bundle_path) port (some before) = ready (record {
    ca = ca;
    ca_path = ca_path;
    bundle_path = bundle_path;
    port = port;
    before = before;
  })

  bound : Ca certs → dir.File × dir.File → Option ℕ → Preparation
  bound ca paths none = failed not_bound
  bound ca paths (some port) = open_log ca paths port log_opened

  unfoldable pub files_written : ℕ → Ca certs → Result (dir.File × dir.File) → Preparation
  unfolding open_log bound
  files_written port ca (err message) = failed (no_authority message)
  files_written port ca (ok paths) = bound ca paths (bind port)

  unfoldable pub generated : ℕ → dir.Disk → Result (Ca certs) → Preparation × dir.Disk
  generated port d (err message) = (failed (no_authority message), d)
  generated port d (ok ca) =
      let (paths, d') = write_files certs dir ca roots d in (files_written port ca paths, d')

  -- From the start of `run` to the log that is opened, and the directory then.
  unfoldable pub prepare : ℕ → certs.World → dir.Disk → Preparation × dir.Disk
  prepare port w d =
      if not sys.provider_installed
      then (failed no_provider, d)
      else if not sys.directory_made
      then (failed no_directory, d)
      else generated port d (generate certs w).0

  abbrev pub state_of : Prepared → State
  state_of p = record {
    pid = sys.pid;
    port = p.port;
    ca_path = display p.ca_path;
    bundle_path = display p.bundle_path;
    log_path = display log_path;
  }

  -- `fs::write` of what `to_vec_pretty` gives.
  unfoldable pub write_json : dir.File → Option Bytes → dir.Disk → Bool × dir.Disk
  write_json path none d = (false, d)
  write_json path (some json) d = dir.write path json d

  abbrev pub write_state : Prepared → dir.Disk → Bool × dir.Disk
  write_state p d = write_json state_path (sys.state_json (state_of p)) d

  abbrev pub write_summary : Summary → dir.Disk → Bool × dir.Disk
  write_summary c d = write_json summary_path (sys.summary_json c) d

  module _ (setup : Setup) (var : Bytes → Option Bytes) (gha : Option GhaCache)
      (a : ProxyArgs) where
    abbrev pub set : Setup
    set = configured setup var gha a

    open set use {net, fs, up, config}

    -- How `run` ends: with what it is set up with, the proxy when the summary is made, and the summary.
    pub data Outcome : Type 0 where
      failed_at : Failure → Outcome
      finished : Prepared → Proxy set → Summary → Outcome

    module _ (w : certs.World) (d : dir.Disk) (disk : fs.Disk) (remote : Gha.State net)
        (world : up.World) where
      -- All is there that is needed to serve; `d'` is the directory before `state.json`.
      pub record IsUp (p : Prepared) (s : Store net fs) (d' : dir.Disk) : Type 0 where
        pub prepared : prepare a.port w d ≡ (ready p, d')
        pub opened : opened_store set disk remote ≡ returned s
        pub fetcher : sys.Client
        pub forwarder : sys.Client
        pub built : new_clients sys.build (not a.no_follow_redirects) ≡ some (fetcher, forwarder)

      -- `serve` may end at any time: the end is asked for, the process is interrupted, or accepting a
      -- connection fails, and only then there is no flush.
      pub data RunsTo (stamp : ℕ) (run_id : Bytes) : dir.Disk → Outcome → Type 0 where
        unprepared :
            (f : Failure) (d' : dir.Disk)
            → prepare a.port w d ≡ (failed f, d')
            → RunsTo stamp run_id d' (failed_at f)
        unopened :
            (p : Prepared) (d' : dir.Disk)
            → prepare a.port w d ≡ (ready p, d')
            → opened_store set disk remote ≡ panicked
            → RunsTo stamp run_id d' (failed_at pack_panicked)
        unbuilt :
            (p : Prepared) (s : Store net fs) (d' : dir.Disk)
            → prepare a.port w d ≡ (ready p, d')
            → opened_store set disk remote ≡ returned s
            → new_clients sys.build (not a.no_follow_redirects) ≡ none
            → RunsTo stamp run_id d' (failed_at no_clients)
        unpublished :
            (p : Prepared) (s : Store net fs) (d' d'' : dir.Disk)
            → IsUp p s d'
            → write_state p d' ≡ (false, d'')
            → RunsTo stamp run_id d'' (failed_at state_not_written)
        cut_off :
            (p : Prepared) (s : Store net fs) (d' d'' : dir.Disk) (l : Listener set)
            → IsUp p s d'
            → write_state p d' ≡ (true, d'')
            → Serves set (listening set p.before world s) l
            → RunsTo stamp run_id d'' (failed_at not_accepted)
        unsummarized :
            (p : Prepared) (s : Store net fs) (d' d'' d''' : dir.Disk) (l m n e : Listener set)
            → IsUp p s d'
            → write_state p d' ≡ (true, d'')
            → Serves set (listening set p.before world s) l
            → Closes set stamp run_id l m n e
            → write_summary e.proxy.store.counts d'' ≡ (false, d''')
            → RunsTo stamp run_id d''' (failed_at summary_not_written)
        summarized :
            (p : Prepared) (s : Store net fs) (d' d'' d''' : dir.Disk) (l m n e : Listener set)
            → IsUp p s d'
            → write_state p d' ≡ (true, d'')
            → Serves set (listening set p.before world s) l
            → Closes set stamp run_id l m n e
            → write_summary e.proxy.store.counts d'' ≡ (true, d''')
            → RunsTo stamp run_id d''' (finished p e.proxy e.proxy.store.counts)
