-- ===== src/Proxy/RoutingTests.antt =====
-- Requests that command the proxy, open a tunnel and are served.
use cicache.Prelude.{ℕ, ◌≡◌, ◌↔◌, refl, true, [], ◌∷◌, Option, none, some, ◌==◌, any}
use cicache.Text.Utf8.{Bytes, codes}
use cicache.Text.Compare.{same}
use cicache.Gha.{ok}
use cicache.Proxy.Dispatch.{
  Uri, Request, intercept, or_default, dispatch, dispatch_direct, connect, control,
}
use cicache.Proxy.Routing.{target, Accounts, dispatch-Accounts, intercept_iff}
use cicache.Proxy.Instance.{setup, cold}

runs : Unit {0}
unfolding same dispatch dispatch_direct connect control any target
runs = tt

abbrev origin_form : Bytes → Uri
origin_form path = record { authority = none; path = path; path_and_query = some path; text = path }

abbrev shutdown : Request setup
shutdown = record {
  method = codes "POST";
  uri = origin_form (codes "/__cicache/shutdown");
  headers = [];
  body = ok [];
}

abbrev tunnel_request : Request setup
tunnel_request = record {
  method = codes "CONNECT";
  uri = record {
    authority = some (codes "localhost", none);
    path = [];
    path_and_query = none;
    text = codes "localhost";
  };
  headers = [];
  body = ok [];
}

-- The command is obeyed where it arrives at the listener itself.
shuts_down : (dispatch setup 7 shutdown none cold).proxy.shutdown ≡ true
unfolding runs
shuts_down = refl

dispatch-Accounts_example :
    Accounts setup
      (target setup shutdown (some (codes "e.org")))
      cold
      (dispatch setup 7 shutdown (some (codes "e.org")) cold).proxy
dispatch-Accounts_example = dispatch-Accounts setup 7 shutdown (some (codes "e.org")) cold

intercept_iff_example :
    ((dispatch setup 7 tunnel_request none cold).spawned ≡ some (intercept (codes "localhost") 443))
    ↔ ((◌≡◌ {A = Option Bytes} none none)
        × (codes "CONNECT" ≡ codes "CONNECT")
        × (given : Option ℕ) × (tunnel_request.uri.authority ≡ some (codes "localhost", given))
        × (or_default 443 given ≡ 443)
        × (any (λ p. p == 443) (443 ∷ []) ≡ true))
intercept_iff_example = intercept_iff setup 7 tunnel_request none cold (codes "localhost") 443
