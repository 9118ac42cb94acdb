-- ===== src/Cli/NextJobTests.antt =====
-- A page that one job stores and the next one is served.
use cicache.Prelude.{false, some, [], ◌∷◌, ◌++◌, length, any}
use cicache.Text.Utf8.{Bytes, codes, utf8_valid}
use cicache.Text.Compare.{same}
use cicache.Text.Integer.{to_le_bytes}
use cicache.Text.Split.{trim_start_matches, trim_end_matches}
use cicache.Text.Search.{ends_with, strip_prefix, contains}
use cicache.Text.Set.{has, insert}
use cicache.Text.Sort.{sort, insert_sorted, le_bytes}
use cicache.Http.{values}
use cicache.Http.Instance.{visible, without, parts}
use cicache.Entry
use cicache.Entry.{stored_headers, encode, decode}
use cicache.Policy.{
  request_eligible, response_storable, cache_control_of, is_bypassed, is_signed_url, bare_host,
  normalize, key,
}
use cicache.Policy.Hosts.{host_matches}
use cicache.Pack.Laws.{total_len}
use cicache.Gha
use cicache.Gha.Sends.{Sends}
use cicache.Gha.{State, ok, rpc, read_answer, fetch, follow_download, read_blob}
use cicache.Gha.Instance.{site}
use cicache.Cli.RunTests.{no_lines}
use cicache.Store
use cicache.Store.{
  Store, get_remote, put, file_away, save_index, save_pack, load_index, load_raw_index,
  read_objects,
}
use cicache.Store.Instance.{files, look_up, config}
use cicache.Store.Carried.{pack_body}
use cicache.Proxy.{sanitize, sanitize_from}
use cicache.Proxy.Serving.{
  Setup, Proxy, handle, note, follow_verdict, serve_eligible, answer_lookup, fetch_and_store,
  follow_fetch, finish_fetch, store_response, put_encoded,
}
use cicache.Proxy.Instance.{page, setup, up_state}
use cicache.Proxy.Sessions.{Listener}
use cicache.Cli.Run.{listening, with_store}

-- Objects below 1000 bytes are packed.
abbrev roomy : Setup
roomy = record setup { config = record config { pack_threshold = 1000 } }

abbrev header : Bytes
header = 200 ∷ 7 ∷ length (parts.to_string page) ∷ (parts.to_string page ++ (3 ∷ []))

abbrev raw : Bytes
raw = codes "CICH" ++ (to_le_bytes 4 (length header) ++ (header ++ codes "abc"))

abbrev first : Proxy roomy
first = (listening roomy no_lines 0 (Store.new site files [] up_state)).proxy

runs : Unit {0}
unfolding same to_le_bytes trim_start_matches trim_end_matches ends_with strip_prefix contains any
    values visible without Entry.new stored_headers Entry.contains encode request_eligible
    response_storable cache_control_of is_bypassed is_signed_url bare_host normalize key
    host_matches has insert Store.new Store.get get_remote look_up sanitize sanitize_from
runs = tt

abbrev after : Listener roomy
after = record {
  proxy = (handle roomy 7 (codes "GET") page [] (ok []) first).1;
  tasks = [];
  decrypted = [];
}

abbrev closing : Store site files
closing = record after.proxy.store { is_open = false }

abbrev drained : Listener roomy
drained = with_store roomy after closing

abbrev indexed : Listener roomy
indexed = with_store roomy after (save_index site files roomy.config 1 (codes "run") closing)

abbrev end : Store site files
end = save_pack site files roomy.config 1 (codes "run") indexed.proxy.store

abbrev at_end : Listener roomy
at_end = with_store roomy indexed end

abbrev holding : State site
holding = record {
  world = record {
    status = 200;
    calls = 0;
    held = some (pack_body site files roomy.config indexed.proxy.store);
  };
  exhausted = false;
}

loads : Unit {0}
unfolding runs handle note put file_away save_index save_pack read_objects sort insert_sorted
    le_bytes rpc read_answer fetch follow_download read_blob load_index load_raw_index utf8_valid
    total_len follow_verdict serve_eligible answer_lookup fetch_and_store follow_fetch finish_fetch
    store_response put_encoded Store.write_pack Store.pack_written Gha.put_scoped Gha.put
    Gha.follow_create Gha.finish_upload Gha.get_scoped
loads = tt
