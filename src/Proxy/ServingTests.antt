-- ===== src/Proxy/ServingTests.antt =====
-- A request that is served twice, at instances of every interface.
use cicache.Prelude.{◌≡◌, refl, [], ◌∷◌, ◌++◌, length, arith}
use cicache.Text.Utf8.{Bytes, codes}
use cicache.Text.Compare.{same}
use cicache.Text.Integer.{to_le_bytes}
use cicache.Text.Split.{trim_start_matches, trim_end_matches}
use cicache.Text.Search.{ends_with, strip_prefix, contains}
use cicache.Prelude.{any}
use cicache.Http.{values}
use cicache.Http.Instance.{listed, visible, without, parts}
use cicache.Entry
use cicache.Entry.{new, stored_headers, encode, decode}
use cicache.Entry.Instance.{small-laws}
use cicache.Policy.{
  bypass_host, request_eligible, response_storable, cache_control_of, is_bypassed, is_signed_url,
  bare_host, normalize, key,
}
use cicache.Policy.Hosts.{host_matches}
use cicache.Gha.{ok}
use cicache.Text.Set.{has, insert}
use cicache.Store
use cicache.Store.{Store, get_remote}
use cicache.Store.Instance.{files-laws, look_up}
use cicache.Proxy.{sanitize, sanitize_from, build, replay}
use cicache.Proxy.Serving.{handle, whole}
use cicache.Proxy.Instance.{reply, url, page, from_u16, setup, cold}
use cicache.Proxy.Caching.{IsStoredMiss, entry_of, handle-handle}
use cicache.Proxy.Forwarding.{SameButCounts, handle-refused}

runs : Unit {0}
unfolding same to_le_bytes trim_start_matches trim_end_matches ends_with strip_prefix contains any
    values visible without new stored_headers Entry.contains encode request_eligible
    response_storable cache_control_of is_bypassed is_signed_url bare_host normalize key
    host_matches has insert Store.new Store.get get_remote look_up sanitize sanitize_from
runs = tt

abbrev header : Bytes
header = 200 ∷ 7 ∷ length (parts.to_string page) ∷ (parts.to_string page ++ (3 ∷ []))

abbrev raw : Bytes
raw = codes "CICH" ++ (to_le_bytes 4 (length header) ++ (header ++ codes "abc"))

cold-IsStoredMiss :
    IsStoredMiss setup 7 (codes "GET") page [] cold cold.store reply (codes "abc") raw
unfolding runs
cold-IsStoredMiss = record {
  world = 1;
  eligible = refl;
  absent = refl;
  replied = refl;
  small = refl;
  whole_body = refl;
  storable = refl;
  encoded = refl;
  new_key = refl;
  written = refl;
}

handle-handle_example :
    let serve = handle setup in
    let (answer, s') = serve 7 (codes "GET") page [] (ok []) cold in
    let (answer', s'') = serve 9 (codes "GET") page [] (ok []) s' in
    (answer
      ≡ ok (whole (build listed 200 (sanitize listed reply.headers) (codes "abc") (codes "MISS"))))
    × (answer' ≡ ok (whole (replay listed from_u16 (entry_of setup 7 page reply (codes "abc")))))
    × (s''.world ≡ s'.world)
    × (s''.store.remote ≡ s'.store.remote)
unfolding runs
handle-handle_example =
    handle-handle setup small-laws files-laws 7 9 (codes "GET") (codes "GET") page [] [] cold
      cold.store reply (codes "abc") raw header [] [] cold-IsStoredMiss refl (omega arith) refl

handle-refused_example :
    SameButCounts setup
      (handle setup 7 (codes "GET") (url (codes "localhost")) [] (ok []) cold).1.store
      cold.store
unfolding runs
handle-refused_example =
    handle-refused setup 7 (codes "GET") (url (codes "localhost")) [] [] bypass_host cold refl
