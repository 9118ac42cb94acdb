-- ===== src/Cli/RunTests.antt =====
-- A run of the proxy in which a tunnel is passed on and the end is asked for.
use cicache.Prelude.{ℕ, ◌≡◌, refl, true, false, Option, none, some, [], length, any}
use cicache.Text.Utf8.{Bytes, codes}
use cicache.Text.Compare.{same}
use cicache.Gha.{ok}
use cicache.Stats.{LogFile, Summary, record_request}
use cicache.Store.{new, load_index, load_pack, save_index, save_pack}
use cicache.Proxy.Serving.{Setup, note}
use cicache.Proxy.Dispatch.{
  tunnel, Request, dispatch, dispatch_direct, connect, control, begin_task,
}
use cicache.Proxy.Instance.{setup, up_state}
use cicache.Proxy.Sessions.{
  Listener, received, begun, accepted, started, Serves, served, then_serves,
}
use cicache.Proxy.Sessions.Invariants.{pieces_in}
use cicache.Cli.LaunchTests.{args, no_var}
use cicache.Cli.Run.{configured, opened_store, listening, with_store, Closes}

abbrev pub no_lines : LogFile
no_lines = record { pieces = []; results = λ i. none }

-- There is no cache service.
abbrev pub local : Setup
local = configured setup no_var none args

abbrev pub asking : Bytes → Option (Bytes × Option ℕ) → Bytes → Request local
asking method authority path = record {
  method = method;
  uri = record { authority = authority; path = path; path_and_query = some path; text = path };
  headers = [];
  body = ok [];
}

abbrev pub answered : Request local → Listener local → Listener local
answered req l = received local l (dispatch local 7 req none l.proxy)

abbrev pub ready : Listener local
ready = listening local no_lines 0 (new local.net local.fs [] up_state)

abbrev pub tunnelling : Request local
tunnelling = asking (codes "CONNECT") (some (codes "e.org", some 22)) []

abbrev pub ending : Request local
ending = asking (codes "POST") none (codes "/__cicache/shutdown")

abbrev pub asked_for : Listener local
asked_for = answered tunnelling ready

abbrev pub tunnelled : Listener local
tunnelled = begun local true true (tunnel (codes "e.org") 22) [] asked_for

abbrev pub ended : Listener local
ended = answered ending tunnelled

runs : Unit {0}
unfolding received begun dispatch dispatch_direct connect control same any new load_index load_pack
    opened_store
runs = tt

pub session : Serves local ready ended
unfolding runs
session = then_serves ready asked_for ended (accepted 7 tunnelling ready) (
    then_serves asked_for tunnelled ended
      (started true true (tunnel (codes "e.org") 22) [] [] asked_for refl)
      (then_serves tunnelled ended ended (accepted 7 ending tunnelled) (served ended)))

abbrev closing : Listener local
closing = with_store local ended (record ended.proxy.store { is_open = false })

abbrev indexed : Listener local
indexed =
    with_store local closing
      (save_index local.net local.fs local.config 1 (codes "run") closing.proxy.store)

-- While the manifest is written, a second tunnel of a connection that was accepted is passed on.
abbrev asked_late : Listener local
asked_late = answered tunnelling indexed

abbrev pub late : Listener local
late = begun local true true (tunnel (codes "e.org") 22) [] asked_late

abbrev pub last : Listener local
last =
    with_store local late
      (save_pack local.net local.fs local.config 1 (codes "run") late.proxy.store)

pub closes : Closes local 1 (codes "run") ended closing late last
unfolding runs save_index save_pack begin_task note record_request
closes = record {
  drains = served closing;
  idle = refl;
  empty = refl;
  goes_on = then_serves indexed asked_late late (accepted 7 tunnelling indexed) (
      then_serves asked_late late late
        (started true true (tunnel (codes "e.org") 22) [] [] asked_late refl) (served late));
  ends = served last;
}

abbrev pub summed : Summary
summed = last.proxy.store.counts

-- The first tunnel is the one piece of the log when `serve` ends, the second follows.
two_pieces : length (pieces_in local last.proxy.log) ≡ 2
unfolding runs save_index save_pack begin_task note record_request
two_pieces = refl
