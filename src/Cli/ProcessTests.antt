-- ===== src/Cli/ProcessTests.antt =====
-- A whole run of the process, and `stop` after it.
use cicache.Prelude.{
  ℕ, ◌+◌, ◌≡◌, refl, true, false, Option, none, some, List, [], ◌∷◌, ◌++◌, length, take, drop,
  take-append, drop-append, any,
}
use cicache.Text.Utf8.{Bytes, codes}
use cicache.Text.Lines.{push_lines}
use cicache.Text.Compare.{same}
use cicache.Stats.{Summary, record_request}
use cicache.Store.{new, load_index, load_pack, save_index, save_pack}
use cicache.Store.Instance.{files}
use cicache.Ca.{
  CertLib, Roots, generate, self_sign, write_files, write_bundle, trust_bundle, with_ca,
  system_bundle, first_bundle, native_bundle, ca_common_name,
}
use cicache.Proxy.Clients.{new_clients}
use cicache.Proxy.Serving.{note}
use cicache.Proxy.Dispatch.{dispatch, dispatch_direct, connect, control, begin_task}
use cicache.Proxy.Sessions.{received, begun}
use cicache.Cli.LaunchTests.{args}
use cicache.Cli.Launch.{State}
use cicache.Cli.Waiting.{killed}
use cicache.Cli.Run.{opened_store}
use cicache.Cli.Run.Process.{
  System, Prepared, prepare, generated, files_written, state_of, write_json,
}
use cicache.Ca
use cicache.Cli.RunTests.{no_lines, summed}
use cicache.Stats.Render.{render}
use cicache.Stats.Render.Instance.{fraction}
use cicache.Cli.Teardown.{Files, Host}

abbrev pub plain : CertLib
plain = record {
  World = ℕ;
  Key = ℕ;
  Certificate = Bytes;
  ServerConfig = List Bytes;
  generate_key = λ w. (some w, w + 1);
  self_signed = λ params key. some params.common_name;
  is_subject_name = λ host. true;
  signed_by = λ params key ca ca_key w. (some params.common_name, w + 1);
  pem = λ cert. cert;
  single_cert = λ chain key protocols. some chain;
  base64 = λ der. der;
}

-- A state and a summary are written as the numbers that they consist of.
abbrev pub state_text : State → Bytes
state_text s =
    s.pid
    ∷ s.port
    ∷ length s.ca_path
    ∷ length s.bundle_path
    ∷ (s.ca_path ++ (s.bundle_path ++ s.log_path))

abbrev pub summary_text : Summary → Bytes
summary_text c =
    c.requests ∷ c.hits ∷ c.misses ∷ c.stored ∷ c.passthrough ∷ c.errors ∷ c.bytes_from_cache
    ∷ c.bytes_from_network ∷ c.bytes_uploaded ∷ c.entries_stored ∷ c.packed ∷ c.packed_bytes
    ∷ c.uploads_failed ∷ c.upstream_millis ∷ []

abbrev pub parse_state : Bytes → Option State
parse_state (pid ∷ (port ∷ (ca ∷ (bundle ∷ rest)))) = some (record {
  pid = pid;
  port = port;
  ca_path = take ca rest;
  bundle_path = take bundle (drop ca rest);
  log_path = drop bundle (drop ca rest);
})
parse_state _ = none

abbrev pub parse_summary : Bytes → Option Summary
parse_summary
      (a ∷ (b ∷ (c ∷ (d ∷ (e ∷ (f ∷ (g ∷ (h ∷ (i ∷ (j ∷ (k ∷ (l ∷ (m ∷ (n ∷ [])))))))))))))) =
    some (record {
      requests = a;
      hits = b;
      misses = c;
      stored = d;
      passthrough = e;
      errors = f;
      bytes_from_cache = g;
      bytes_from_network = h;
      bytes_uploaded = i;
      entries_stored = j;
      packed = k;
      packed_bytes = l;
      uploads_failed = m;
      upstream_millis = n;
    })
parse_summary _ = none

pub parse-state : (s : State) → parse_state (state_text s) ≡ some s
parse-state s =
    rw
      (
        take-append s.ca_path (s.bundle_path ++ s.log_path) (length s.ca_path) refl,
        drop-append s.ca_path (s.bundle_path ++ s.log_path) (length s.ca_path) refl,
        take-append s.bundle_path s.log_path (length s.bundle_path) refl,
        drop-append s.bundle_path s.log_path (length s.bundle_path) refl,
      )
      refl

abbrev pub sys : System
sys = record {
  certs = plain;
  dir = files;
  Client = Unit;
  provider_installed = true;
  directory_made = true;
  roots = record { certs = codes "R" ∷ []; errors = 0; read_to_string = λ path. none };
  bind = λ port. some 8080;
  log_opened = some no_lines;
  build = λ builder. some tt;
  pid = 7;
  display = λ path. path;
  state_json = λ state. some (state_text state);
  summary_json = λ c. some (summary_text c);
}

abbrev pub p : Prepared sys
p = record {
  ca = record { cert = ca_common_name; key = 0; ca_pem = ca_common_name; configs = [] };
  ca_path = codes "ca.pem";
  bundle_path = codes "ca-bundle.pem";
  port = 8080;
  before = no_lines;
}

abbrev pub with_bundle : files.Disk
with_bundle = (prepare sys args.port 0 []).1

abbrev pub with_state : files.Disk
with_state = (codes "state.json", state_text (state_of sys p)) ∷ with_bundle

abbrev pub at_end : files.Disk
at_end = (codes "summary.json", summary_text summed) ∷ with_state

prepares : Unit {0}
unfolding prepare generated files_written generate self_sign write_files write_bundle trust_bundle
    with_ca system_bundle native_bundle Ca.pem_encode push_lines write_json new_clients opened_store
    new load_index load_pack received begun dispatch dispatch_direct connect control same any
    begin_task note record_request save_index save_pack
prepares = tt

abbrev pub seen : Files
seen = record {
  state = some (state_text (state_of sys p));
  summary = some (summary_text summed);
  daemon_log = none;
  curlrc = none;
  has_objects = true;
  read = λ path. none;
}

abbrev pub host : Host
host = record {
  built = true;
  post = λ url i. record { now = i; files = seen };
  home = true;
  may_touch = false;
  deleting = killed;
  curlrc_written = true;
  objects_removed = true;
  state_removed = true;
  parse_state = parse_state;
  parse_summary = parse_summary;
  render = render fraction;
}
