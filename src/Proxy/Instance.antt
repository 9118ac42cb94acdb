-- ===== src/Proxy/Instance.antt =====
-- A proxy with a small origin behind it, at the instances of the other interfaces.
use cicache.Prelude.{
  false, ℕ, ◌+◌, true, false, [], ◌∷◌, Option, none, some, ◌&&◌, leb, if◌then◌else◌,
}
use cicache.Text.Utf8.{Bytes, codes}
use cicache.Http.Instance.{listed, parts, Parts}
use cicache.Entry.Instance.{small}
use cicache.Policy.{Policy}
use cicache.Gha.{State, ok}
use cicache.Gha.Instance.{site}
use cicache.Store
use cicache.Store.{Store, get_remote}
use cicache.Store.Instance.{files, config}
use cicache.Proxy.Serving.{Setup, Reply, Upstream, Proxy}

abbrev pub reply : Reply listed
reply = record {
  status = 200;
  headers = (codes "te", codes "trailers") ∷ [];
  content_length = some 3;
  body = ok (codes "abc");
  millis = 12;
}

-- It counts the requests it gets, and gives one reply to all.
abbrev pub origin : Upstream listed
origin = record {
  World = ℕ;
  fetch = λ method url headers w. (ok reply, w + 1);
  forward = λ method url headers body w. (ok reply, w + 1);
}

abbrev pub policy : Policy
policy = record {
  min_size = 0;
  max_size = 1000;
  min_max_age = 3600;
  cache_all = true;
  cache_authorized = false;
  extra_bypass = [];
  key_prefix = codes "t";
}

abbrev pub url : Bytes → Parts
url host = record {
  scheme = codes "https";
  host = some host;
  port = none;
  path = codes "/p";
  query = [];
  fragment = none;
}

abbrev pub page : Parts
page = url (codes "e.org")

abbrev pub from_u16 : ℕ → Option ℕ
from_u16 status = if leb 100 status && leb status 999 then some status else none

abbrev pub up_state : State site
up_state = record { world = record { status = 200; calls = 0; held = none }; exhausted = false }

abbrev pub digest : Bytes → Bytes
digest text = text

abbrev pub setup : Setup
setup = record {
  urls = parts;
  parse_error = λ text. codes "bad";
  lib = listed;
  codec = small;
  net = site;
  fs = files;
  up = origin;
  digest = digest;
  from_u16 = from_u16;
  policy = policy;
  config = config;
  mitm_ports = 443 ∷ [];
  summary_json = λ summary. codes "{}";
}

abbrev pub Site : Type 0
Site = Proxy setup

abbrev pub cold : Site
cold = record {
  store = Store.new site files [] up_state;
  log = some (record { pieces = []; results = λ i. none });
  world = 0;
  shutdown = false;
}
