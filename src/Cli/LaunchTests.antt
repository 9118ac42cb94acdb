-- ===== src/Cli/LaunchTests.antt =====
-- Runs of the flags and variables the proxy is started with.
use cicache.Prelude.{◌≡◌, refl, true, false, Option, none, some, [], ◌∷◌, ◌++◌}
use cicache.Text.Utf8.{Bytes, codes}
use cicache.Text.Number.{decimal, decimal_from}
use cicache.Text.Lines.{join, push_lines}
use cicache.Text.Lines.Laws.{lacks}
use cicache.Cli.Launch.{ProxyArgs, to_run_args, State, append_to, environment, export_environment}
use cicache.Cli.Launch.Flags.{Agree, to_run_args_injective}

abbrev pub no_var : Bytes → Option Bytes
no_var name = none

abbrev pub args : ProxyArgs
args = record {
  port = 0;
  state_dir = none;
  min_size = 32768;
  max_size = 1000000;
  cache_all = false;
  min_max_age = 3600;
  cache_authorized = true;
  bypass = codes "a.b" ∷ codes "c" ∷ [];
  mitm_ports = 443 ∷ 8443 ∷ [];
  no_follow_redirects = false;
  upload_concurrency = 8;
  pack_threshold = 4;
  pack_limit = 1000;
  scope = none;
  key_prefix = codes "v1";
  no_github_env = false;
}

-- The scope is computed once: the background process is given it.
to_run_args_injective_example :
    Agree no_var args
      (record args { scope = some (codes "job-os-arch") })
      (codes "/tmp")
      (codes "/tmp")
unfolding lacks to_run_args
to_run_args_injective_example =
    to_run_args_injective no_var args (record args { scope = some (codes "job-os-arch") })
      (codes "/tmp") (codes "/tmp") (refl, (refl, tt)) (refl, (refl, tt)) refl

abbrev state : State
state = record {
  pid = 7;
  port = 80;
  ca_path = codes "ca";
  bundle_path = codes "b";
  log_path = codes "l";
}

abbrev pub path_var : Bytes → Option Bytes
path_var name = some (codes "env")

starts_with_proxy :
    (rest : Bytes) × (export_environment path_var false state false
      ≡ append_to (codes "env") (codes "HTTP_PROXY=http://127.0.0.1:80" ++ 10 ∷ rest))
unfolding export_environment environment decimal decimal_from push_lines join
starts_with_proxy = (_, refl)
