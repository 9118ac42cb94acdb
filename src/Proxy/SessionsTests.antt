-- ===== src/Proxy/SessionsTests.antt =====
-- A session: a tunnel is asked for, decrypted and used, and the proxy is told to shut down.
use cicache.Prelude.{ℕ, ◌%◌, ◌^◌, ◌≡◌, refl, ap, Option, none, some, [], ◌∷◌, length, any}
use cicache.Text.Utf8.{Bytes, codes}
use cicache.Text.Compare.{same}
use cicache.Gha.{ok}
use cicache.Proxy.Dispatch.{intercept, Request, dispatch, dispatch_direct, connect, control}
use cicache.Store.{new}
use cicache.Proxy.Instance.{setup, cold}
use cicache.Proxy.Sessions.{Listener, received, accepted, Serves, served, then_serves}
use cicache.Proxy.Sessions.Invariants.{pieces_in, IsSound, Serves-IsSound}
use cicache.Proxy.Sessions.Shutdown.{Commands, Serves-shutdown}

abbrev asking : Bytes → Option (Bytes × Option ℕ) → Bytes → Request setup
asking method authority path = record {
  method = method;
  uri = record { authority = authority; path = path; path_and_query = some path; text = path };
  headers = [];
  body = ok [];
}

abbrev listening : Listener setup
listening = record { proxy = cold; tasks = []; decrypted = [] }

abbrev answered : Request setup → Listener setup → Listener setup
answered req l = received setup l (dispatch setup 7 req none l.proxy)

abbrev connecting : Listener setup
connecting = answered (asking (codes "CONNECT") (some (codes "e.org", none)) []) listening

abbrev ended : Listener setup
ended = answered (asking (codes "POST") none (codes "/__cicache/shutdown")) connecting

session : Serves setup listening ended
session =
    then_serves listening connecting ended
      (accepted 7 (asking (codes "CONNECT") (some (codes "e.org", none)) []) listening)
      (then_serves connecting ended ended
        (accepted 7 (asking (codes "POST") none (codes "/__cicache/shutdown")) connecting)
        (served ended))

-- The tunnel is to be decrypted.
awaits_decryption : connecting.tasks ≡ intercept (codes "e.org") 443 ∷ []
unfolding received dispatch dispatch_direct connect same any
awaits_decryption = refl

Serves-IsSound_example : IsSound setup ended
unfolding new
Serves-IsSound_example = Serves-IsSound setup listening ended session (record {
  tasks = tt;
  decrypted = tt;
  balanced = λ file. λ e.
      let empty : [] ≡ file.pieces = ap (pieces_in setup) e in ap (λ t. length t % 2 ^ 64) empty;
})

Serves-shutdown_example :
    (m : Listener setup) × (now : ℕ) × (req : Request setup) × Serves setup listening m
    × Commands setup req
    × Serves setup (received setup m (dispatch setup now req none m.proxy)) ended
unfolding received dispatch dispatch_direct connect control same any
Serves-shutdown_example = Serves-shutdown setup listening ended session refl refl
