-- ===== src/Cli/LargeNextJobTests.antt =====
-- A page whose entry is uploaded on its own by one job, and served in the next one; and a session in
-- which a client asks for a page.
use cicache.Prelude.{none, some, ◌+◌, ◌%◌, map, ◌≡◌, refl, false, [], ◌∷◌, ◌++◌, length, arith, any}
use cicache.Text.Utf8.{Bytes, codes, utf8_valid, from_utf8_lossy}
use cicache.Text.Compare.{same}
use cicache.Text.Number.{decimal, decimal_from}
use cicache.Text.Lines.{is_blank, lines, join, lines_of_pieces}
use cicache.Text.Lines.Laws.{lacks}
use cicache.Text.Integer.{to_le_bytes}
use cicache.Text.Split.{trim_start_matches, trim_end_matches, split}
use cicache.Text.Search.{ends_with, strip_prefix, contains}
use cicache.Text.Set.{has, insert}
use cicache.Text.Sort.{sort, dedup, insert_sorted, le_bytes}
use cicache.Http.{values}
use cicache.Http.Instance.{visible, without, parts}
use cicache.Entry
use cicache.Entry.{stored_headers, encode, decode}
use cicache.Policy.{
  request_eligible, response_storable, cache_control_of, is_bypassed, is_signed_url, bare_host,
  normalize, key,
}
use cicache.Policy.Hosts.{host_matches}
use cicache.Pack.{Object}
use cicache.Gha
use cicache.Gha.{
  State, ok, rpc, read_answer, fetch, follow_download, read_blob, follow_create, finish_upload,
  scoped_key, scoped_prefix,
}
use cicache.Gha.Instance.{shelf, client}
use cicache.Cli.RunTests.{no_lines}
use cicache.Store
use cicache.Store.{
  Store, get_remote, put, file_away, save_index, save_pack, load_index, load_raw_index, load_pack,
  load_raw_pack, manifest, insert_lines,
}
use cicache.Store.Uploads.{done, then_step, spawned, finished, flushed, upload, upload_done}
use cicache.Store.Instance.{files, look_up, config}
use cicache.Gha.Sends.{Sends}
use cicache.Proxy.{sanitize, sanitize_from}
use cicache.Proxy.Serving.{
  Setup, Proxy, handle, note, follow_verdict, serve_eligible, answer_lookup, fetch_and_store,
  follow_fetch, finish_fetch, store_response, put_encoded,
}
use cicache.Proxy.Instance.{page, setup}
use cicache.Proxy.Caching.{key_of}
use cicache.Proxy.Sessions.{Listener, received, accepted, served, then_serves}
use cicache.Cli.Run.{opened_store, listening, with_store}
use cicache.Cli.Run.Filed.{Serves-IsFiled}
use cicache.Store.Queue.{IsFiled}
use cicache.Proxy.Dispatch.{Request, dispatch, dispatch_direct, serve_url, absolute_url, conclude}

-- Objects of four bytes or more are uploaded on their own. A digest has letters only.
abbrev shelved : Setup
shelved = record setup { net = shelf; digest = map (λ b. 97 + b % 16) }

abbrev header : Bytes
header = 200 ∷ 7 ∷ length (parts.to_string page) ∷ (parts.to_string page ++ (3 ∷ []))

abbrev raw : Bytes
raw = codes "CICH" ++ (to_le_bytes 4 (length header) ++ (header ++ codes "abc"))

abbrev nothing : State shelf
nothing = record { world = []; exhausted = false }

abbrev first : Proxy shelved
first = (listening shelved no_lines 0 (Store.new shelf files [] nothing)).proxy

runs : Unit {0}
unfolding same to_le_bytes trim_start_matches trim_end_matches ends_with strip_prefix contains any
    values visible without Entry.new stored_headers Entry.contains encode request_eligible
    response_storable cache_control_of is_bypassed is_signed_url bare_host normalize key
    host_matches has insert Store.new Store.get get_remote look_up sanitize sanitize_from
runs = tt

abbrev after : Listener shelved
after = record {
  proxy = (handle shelved 7 (codes "GET") page [] (ok []) first).1;
  tasks = [];
  decrypted = [];
}

abbrev entry : Object
entry = record { key = key_of shelved page; body = raw }

abbrev closing : Store shelf files
closing = record after.proxy.store { is_open = false }

abbrev spawning : Store shelf files
spawning = record closing { channel = []; tasks = entry ∷ [] }

abbrev idle : Store shelf files
idle = upload shelf files client entry (record spawning { tasks = [] })

abbrev drained : Listener shelved
drained = with_store shelved after idle

abbrev end : Store shelf files
end = save_index shelf files config 1 (codes "run") idle

abbrev indexed : Listener shelved
indexed = with_store shelved after end

abbrev at_end : Listener shelved
at_end = with_store shelved indexed (save_pack shelf files config 1 (codes "run") end)

loads : Unit {0}
unfolding runs handle note put file_away save_index save_pack sort dedup insert_sorted le_bytes rpc
    read_answer fetch follow_download read_blob load_index load_raw_index load_pack load_raw_pack
    utf8_valid from_utf8_lossy follow_verdict serve_eligible upload upload_done manifest
    insert_lines answer_lookup fetch_and_store follow_fetch finish_fetch store_response put_encoded
    Store.write_pack Store.pack_written Gha.get Gha.put_scoped Gha.put follow_create finish_upload
    Gha.get_scoped scoped_key scoped_prefix decimal decimal_from is_blank lines join lines_of_pieces
    split lacks
loads = tt

abbrev next : Store shelf files
next = load_index shelf files config (Store.new shelf files [] end.remote)

-- A session in which a client asks for a page, and the flush that uploads its entry.
abbrev asked : Request shelved
asked = record {
  method = codes "GET";
  uri = record {
    authority = some (codes "e.org", none);
    path = codes "/p";
    path_and_query = some (codes "/p");
    text = codes "e.org";
  };
  headers = [];
  body = ok [];
}

abbrev ready : Listener shelved
ready = listening shelved no_lines 0 first.store

abbrev once : Listener shelved
once = received shelved ready (dispatch shelved 7 asked none ready.proxy)

abbrev waiting : Store shelf files
waiting = record once.proxy.store { is_open = false }

-- The one object that waits.
abbrev object : Object
object = elim waiting.channel [ [] ↦ entry | o ∷ rest ↦ o ]

abbrev uploading : Store shelf files
uploading = record waiting { channel = []; tasks = object ∷ [] }

abbrev at_rest : Store shelf files
at_rest = upload shelf files client object (record uploading { tasks = [] })

serves : Unit {0}
unfolding loads opened_store received dispatch dispatch_direct serve_url absolute_url conclude
serves = tt

Serves-IsFiled_example :
    IsFiled shelf files config [] once.proxy.store
    × IsFiled shelf files config [] (
        save_pack shelf files config 1
          (codes "run")
          (save_index shelf files config 1 (codes "run") at_rest))
unfolding serves
Serves-IsFiled_example =
    Serves-IsFiled shelved [] nothing no_lines 0 first.store
      (save_pack shelf files config 1 (codes "run")
        (save_index shelf files config 1 (codes "run") at_rest))
      once 1 (codes "run") refl (then_serves ready once once (accepted 7 asked ready) (served once))
      (flushed once.proxy.store at_rest
        (then_step (spawned waiting client object [] refl refl (omega arith))
          (then_step (finished uploading client [] object [] refl refl) (done at_rest)))
        refl refl)

-- One entry and the manifest were at_rest.
two_uploads : length (save_index shelf files config 1 (codes "run") at_rest).remote.world ≡ 2
unfolding serves
two_uploads = refl
