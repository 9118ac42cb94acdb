-- ===== src/Gha/Instance.antt =====
-- A service that answers every call as its world says: the world holds the status of its answers
-- and the entries that were uploaded.
use cicache.Prelude.{ℕ, ◌+◌, true, Option, none, some, List, [], ◌∷◌, if◌then◌else◌, ◌==◌}
use cicache.Text.Utf8.{Bytes, codes}
use cicache.Text.Compare.{same}
use cicache.Text.Search.{starts_with}
use cicache.Gha.{Net, GhaCache, Request, create, finalize, download}

pub record Site : Type 0 where
  pub status : ℕ
  pub calls : ℕ
  pub held : Option Bytes

abbrev pub site : Net
site = record {
  World = Site;
  post = λ url token request w.
      (some (record { status = w.status; text = codes "{}" }), record w { calls = w.calls + 1 });
  get = λ url w. (some (record { status = 200; bytes = w.held }), w);
  upload = λ url bytes w. (some 201, record w { held = some bytes });
  show_status = λ n. if n == 429 then codes "429 Too Many Requests" else codes "200 OK";
  decode_create = λ text. some (record { ok = true; signed_upload_url = codes "u" });
  decode_finalize = λ text. some true;
  decode_download = λ text. some (record { ok = true; signed_download_url = codes "d" });
  sha_hex = λ text. text;
}

abbrev pub client : GhaCache
client = record { base = codes "http://s/"; token = codes "t"; version = codes "v" }

-- The address of an entry is its key; a download asks for the last entry whose key begins with the
-- one that is asked for.
abbrev pub Shelf : Type 0
Shelf = List (Bytes × Bytes)

abbrev pub first_below : Bytes → Shelf → Bytes
first_below prefix [] = []
first_below prefix ((name, bytes) ∷ shelf) =
    let rest = first_below prefix shelf in if starts_with name prefix then name else rest

abbrev pub taken : Bytes → Shelf → Option Bytes
taken address [] = none
taken address ((name, bytes) ∷ shelf) =
    let rest = taken address shelf in if same name address then some bytes else rest

abbrev pub address_of : Request → Shelf → Bytes
address_of (create key version) w = key
address_of (finalize key version size_bytes) w = key
address_of (download key version restore_keys) w = first_below key w

-- A service that keeps what is uploaded.
abbrev pub shelf : Net
shelf = record {
  World = Shelf;
  post = λ url token request w. (some (record { status = 200; text = address_of request w }), w);
  get = λ url w. (some (record { status = 200; bytes = taken url w }), w);
  upload = λ url bytes w. (some 201, (url, bytes) ∷ w);
  show_status = λ n. codes "200 OK";
  decode_create = λ text. some (record { ok = true; signed_upload_url = text });
  decode_finalize = λ text. some true;
  decode_download = λ text. some (record { ok = true; signed_download_url = text });
  sha_hex = λ text. text;
}
