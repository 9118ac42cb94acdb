-- ===== src/Cli/Launch.antt =====
-- src/main.rs: what the proxy is started with. `scope` and `to_run_args` of `ProxyArgs`,
-- `resolve_state_dir`, and the variables of `environment` as `export_environment` writes them.
-- A path is its text, as `display` shows it; `var` reads the environment.
pub mod Flags
use cicache.Prelude.{
  ℕ, ◌≡◌, Bool, true, false, Option, none, some, List, [], ◌∷◌, ◌++◌, map, if◌then◌else◌,
}
use cicache.Text.Utf8.{Bytes, codes}
use cicache.Text.Number.{decimal}
use cicache.Text.Lines.{join, push_lines}

pub record ProxyArgs : Type 0 where
  pub port : ℕ
  pub state_dir : Option Bytes
  pub min_size : ℕ
  pub max_size : ℕ
  pub cache_all : Bool
  pub min_max_age : ℕ
  pub cache_authorized : Bool
  pub bypass : List Bytes
  pub mitm_ports : List ℕ
  pub no_follow_redirects : Bool
  pub upload_concurrency : ℕ
  pub pack_threshold : ℕ
  pub pack_limit : ℕ
  pub scope : Option Bytes
  pub key_prefix : Bytes
  pub no_github_env : Bool

abbrev pub unwrap_or : Option Bytes → Bytes → Bytes
unwrap_or none default = default
unwrap_or (some s) default = s

-- The path below a directory is the standard library's to build.
abbrev pub resolve_state_dir :
    (Bytes → Bytes → Bytes) → (Bytes → Option Bytes) → Bytes → Option Bytes → Bytes
resolve_state_dir below var temp_dir (some dir) = dir
resolve_state_dir below var temp_dir none =
    below (unwrap_or (var (codes "RUNNER_TEMP")) temp_dir) (codes "cicache")

abbrev pub default_scope : (Bytes → Option Bytes) → Bytes
default_scope var =
    unwrap_or (var (codes "GITHUB_JOB")) (codes "job")
    ++ b'-'
      ∷ (unwrap_or (var (codes "RUNNER_OS")) (codes "os")
          ++ b'-' ∷ unwrap_or (var (codes "RUNNER_ARCH")) (codes "arch"))

abbrev pub scope_of : (Bytes → Option Bytes) → ProxyArgs → Bytes
scope_of var a = unwrap_or a.scope (default_scope var)

abbrev pub flag : Bool → Bytes → List Bytes
flag true name = name ∷ []
flag false name = []

abbrev pub joined : Bytes → List Bytes → List Bytes
joined name [] = []
joined name (piece ∷ pieces) = name ∷ (join b',' (piece ∷ pieces) ∷ [])

abbrev pub settings : (Bytes → Option Bytes) → ProxyArgs → Bytes → List Bytes
settings var a dir =
    codes "--port"
    ∷ decimal a.port
    ∷ codes "--state-dir"
    ∷ dir
    ∷ codes "--min-size"
    ∷ decimal a.min_size
    ∷ codes "--max-size"
    ∷ decimal a.max_size
    ∷ codes "--min-max-age"
    ∷ decimal a.min_max_age
    ∷ codes "--upload-concurrency"
    ∷ decimal a.upload_concurrency
    ∷ codes "--key-prefix"
    ∷ a.key_prefix
    ∷ codes "--scope"
    ∷ scope_of var a
    ∷ codes "--pack-threshold"
    ∷ decimal a.pack_threshold
    ∷ codes "--pack-limit"
    ∷ decimal a.pack_limit
    ∷ []

unfoldable pub to_run_args : (Bytes → Option Bytes) → ProxyArgs → Bytes → List Bytes
to_run_args var a dir =
    settings var a dir
    ++ (flag a.cache_all (codes "--cache-all")
        ++ (flag a.cache_authorized (codes "--cache-authorized")
            ++ (flag a.no_follow_redirects (codes "--no-follow-redirects")
                ++ (joined (codes "--bypass") a.bypass
                    ++ joined (codes "--mitm-ports") (map decimal a.mitm_ports)))))

-- `state.json`.
pub record State : Type 0 where
  pub pid : ℕ
  pub port : ℕ
  pub ca_path : Bytes
  pub bundle_path : Bytes
  pub log_path : Bytes

abbrev pub no_proxy : Bytes
no_proxy = join b',' (
    codes "localhost"
    ∷ (codes "127.0.0.1"
        ∷ (codes "::1"
            ∷ (codes "169.254.169.254"
                ∷ (codes ".actions.githubusercontent.com"
                    ∷ (codes ".blob.core.windows.net" ∷ []))))))

-- The names, each with the value.
abbrev pub each : List Bytes → Bytes → List (Bytes × Bytes)
each names value = map (λ name. (name, value)) names

abbrev pub proxy_names : List Bytes
proxy_names =
    codes "HTTP_PROXY" ∷ codes "http_proxy" ∷ codes "HTTPS_PROXY" ∷ codes "https_proxy" ∷ []

abbrev pub no_proxy_names : List Bytes
no_proxy_names = codes "NO_PROXY" ∷ codes "no_proxy" ∷ []

abbrev pub bundle_names : List Bytes
bundle_names =
    codes "SSL_CERT_FILE"
    ∷ codes "REQUESTS_CA_BUNDLE"
    ∷ codes "CURL_CA_BUNDLE"
    ∷ codes "AWS_CA_BUNDLE"
    ∷ codes "CARGO_HTTP_CAINFO"
    ∷ codes "GIT_SSL_CAINFO"
    ∷ []

abbrev pub ca_names : List Bytes
ca_names = codes "NODE_EXTRA_CA_CERTS" ∷ codes "DENO_CERT" ∷ []

abbrev pub homebrew : Bool → List (Bytes × Bytes)
homebrew true = (codes "HOMEBREW_CURLRC", codes "1") ∷ []
homebrew false = []

abbrev pub proxy_url : State → Bytes
proxy_url state = codes "http://127.0.0.1:" ++ decimal state.port

unfoldable pub environment : Bool → State → List (Bytes × Bytes)
environment macos state =
    each proxy_names (proxy_url state)
    ++ (each no_proxy_names no_proxy
        ++ (each bundle_names state.bundle_path ++ (each ca_names state.ca_path ++ homebrew macos)))

abbrev pub assignment : Bytes × Bytes → Bytes
assignment (name, value) = name ++ b'=' ∷ value

-- What is appended to the file of `GITHUB_ENV`, or printed where there is none to write.
pub data Export : Type 0 where
  append_to : (path text : Bytes) → Export
  print : Bytes → Export

abbrev pub github_env : (Bytes → Option Bytes) → Bool → Option Bytes
github_env var true = none
github_env var false = var (codes "GITHUB_ENV")

unfoldable pub export_environment : (Bytes → Option Bytes) → Bool → State → Bool → Export
export_environment var macos state no_github_env = elim (github_env var no_github_env) [
  | some path ↦ append_to path (push_lines (map assignment (environment macos state)))
  | none ↦ print (push_lines (map (λ v. codes "export " ++ assignment v) (environment macos state)))
]
