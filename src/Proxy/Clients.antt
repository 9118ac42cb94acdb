-- ===== src/Proxy/Clients.antt =====
-- src/proxy.rs: the two clients that `Proxy::new` builds.
use cicache.Prelude.{ℕ, Bool, true, false, Option, none, some}

pub data Redirects : Type 0 where
  limited : ℕ → Redirects
  not_followed : Redirects

-- `Client::builder()`: whether `no_proxy` is called, and the policy on redirects.
pub record Builder : Type 0 where
  pub no_proxy : Bool
  pub redirects : Redirects

abbrev pub redirects_of : Bool → Redirects
redirects_of true = limited 10
redirects_of false = not_followed

abbrev pub fetcher_builder : Bool → Builder
fetcher_builder follow_redirects = record {
  no_proxy = true;
  redirects = redirects_of follow_redirects;
}

abbrev pub forwarder_builder : Builder
forwarder_builder = record { no_proxy = true; redirects = not_followed }

-- `build` may fail. The fetcher is built first.
module _ {Client : Type 0} (build : Builder → Option Client) where
  abbrev with_forwarder : Client → Option Client → Option (Client × Client)
  with_forwarder fetcher none = none
  with_forwarder fetcher (some forwarder) = some (fetcher, forwarder)

  unfoldable pub new_clients : Bool → Option (Client × Client)
  new_clients follow_redirects = elim (build (fetcher_builder follow_redirects)) [
    | none ↦ none
    | some fetcher ↦ with_forwarder fetcher (build forwarder_builder)
  ]
