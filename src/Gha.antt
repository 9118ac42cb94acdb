-- ===== src/Gha.antt =====
-- src/gha.rs: the client of the cache service.
-- The HTTP client, the JSON library and the service behind them are a parameter, whose state is the
-- `World`. An error is the text that `to_string` gives of it, its outermost context.
pub mod Laws
pub mod Scopes
pub mod Sends
pub mod Instance
mod Tests
use cicache.Prelude.{
  ℕ, ◌+◌, Bool, true, false, ◌&&◌, ◌||◌, not, Option, none, some, List, [], ◌∷◌, ◌++◌, length, ltb,
  leb, ◌==◌, if◌then◌else◌,
}
use cicache.Text.Utf8.{Bytes, codes}
use cicache.Text.Compare.{same}
use cicache.Text.Search.{contains, ends_with}
use cicache.Text.Number.{decimal}

abbrev pub service : Bytes
service = codes "twirp/github.actions.results.api.v1.CacheService"

abbrev pub entry_format_version : Bytes
entry_format_version = codes "cicache/entry-v1"

-- `CreateRequest`, `FinalizeUploadRequest` and `DownloadRequest`.
pub data Request : Type 0 where
  create : (key version : Bytes) → Request
  finalize : (key version size_bytes : Bytes) → Request
  download : (key version : Bytes) → List Bytes → Request

pub record CreateResponse : Type 0 where
  pub ok : Bool
  pub signed_upload_url : Bytes

pub record DownloadResponse : Type 0 where
  pub ok : Bool
  pub signed_download_url : Bytes

-- The status and the text of an answer.
pub record Answer : Type 0 where
  pub status : ℕ
  pub text : Bytes

-- The status of a download, and its bytes unless reading them fails.
pub record Blob : Type 0 where
  pub status : ℕ
  pub bytes : Option Bytes

pub record Net : Type 1 where
  pub World : Type 0
  -- `none` where the call itself fails.
  pub post : Bytes → Bytes → Request → World → Option Answer × World
  pub get : Bytes → World → Option Blob × World
  pub upload : Bytes → Bytes → World → Option ℕ × World
  pub show_status : ℕ → Bytes
  pub decode_create : Bytes → Option CreateResponse
  pub decode_finalize : Bytes → Option Bool
  pub decode_download : Bytes → Option DownloadResponse
  pub sha_hex : Bytes → Bytes

pub data Result {ℓ} (A : Type ℓ) : Type ℓ where
  ok : A → Result A
  err : Bytes → Result A

abbrev pub is_success : ℕ → Bool
is_success status = leb 200 status && ltb status 300

pub record GhaCache : Type 0 where
  pub base : Bytes
  pub token : Bytes
  pub version : Bytes

-- `from_env`, from whether the HTTP client could be built and the two variables where they are set.
unfoldable pub from_env : (Bytes → Bytes) → Bool → Option Bytes → Option Bytes → Option GhaCache
from_env sha_hex built (some base) (some token) =
    if same base [] || same token [] || not built
    then none
    else some (record {
      base = if ends_with base (codes "/") then base else base ++ codes "/";
      token = token;
      version = sha_hex entry_format_version;
    })
from_env sha_hex built _ _ = none

-- Whether a reservation was refused because the entry is already there.
abbrev pub is_already_exists : Bytes → Bool
is_already_exists text = contains text (codes "409") || contains text (codes "already_exists")

unfoldable pub scoped_prefix : Bytes → Bytes → Bytes → Bytes
scoped_prefix prefix scope kind =
    prefix ++ (codes "-" ++ (kind ++ (codes "-" ++ (scope ++ codes "-"))))

-- The key of `put_scoped`, from the clock and the run's id.
unfoldable pub scoped_key : Bytes → Bytes → Bytes → ℕ → Bytes → Bytes
scoped_key prefix scope kind stamp run =
    scoped_prefix prefix scope kind ++ (decimal stamp ++ (codes "-" ++ run))

module _ (net : Net) where
  -- The world and the flag `exhausted`.
  pub record State : Type 0 where
    pub world : net.World
    pub exhausted : Bool

  abbrev pub returned_text : Bytes → Answer → Bytes
  returned_text method a =
      method ++ (codes " returned " ++ (net.show_status a.status ++ (codes ": " ++ a.text)))

  abbrev pub decoded {ℓ} : {A : Type ℓ} → Bytes → Bytes → Option A → Result A
  decoded method text (some a) = ok a
  decoded method text none = err (codes "decoding " ++ (method ++ (codes " response: " ++ text)))

  unfoldable pub read_answer {ℓ} :
      {A : Type ℓ} → (Bytes → Option A) → Bytes → State → Option Answer → Result A × State
  read_answer decode method s none = (err (codes "calling " ++ method), s)
  read_answer decode method s (some a) =
      if a.status == 429
      then (err (returned_text method a), record s { exhausted = true })
      else if not (is_success a.status)
      then (err (returned_text method a), s)
      else (decoded method a.text (decode a.text), s)

  unfoldable pub rpc {ℓ} :
      {A : Type ℓ} → (Bytes → Option A) → GhaCache → Bytes → Request → State → Result A × State
  unfolding read_answer
  rpc decode c method body s =
      let (answer, world) =
        net.post (c.base ++ (service ++ (codes "/" ++ method))) c.token body s.world in
      read_answer decode method (record s { world = world }) answer

  unfoldable pub read_blob : Bytes → State → Option Blob → Result (Option Bytes) × State
  read_blob key s none = (err (codes "downloading cache blob"), s)
  read_blob key s (some blob) =
      if not (is_success blob.status)
      then (
        err (
            codes "download for "
            ++ (key
                ++ (codes " returned "
                    ++ (net.show_status blob.status ++ codes " despite the service offering it")))),
        s,
      )
      else (
        elim blob.bytes [ none ↦ err (codes "reading cache blob") | some bytes ↦ ok (some bytes) ],
        s,
      )

  unfoldable pub follow_download :
      Bytes → Result DownloadResponse × State → Result (Option Bytes) × State
  follow_download key (err e, s) = (err e, s)
  follow_download key (ok resp, s) =
      if not resp.ok || same resp.signed_download_url []
      then (ok none, s)
      else let (blob, world) = net.get resp.signed_download_url s.world in
        read_blob key (record s { world = world }) blob

  unfoldable pub fetch : GhaCache → Bytes → List Bytes → State → Result (Option Bytes) × State
  fetch c key restore_keys s =
      if s.exhausted
      then (ok none, s)
      else follow_download key (
          rpc net.decode_download c (codes "GetCacheEntryDownloadURL")
            (download key c.version restore_keys) s)

  unfoldable pub get : GhaCache → Bytes → State → Result (Option Bytes) × State
  get c key s = fetch c key [] s

  unfoldable pub get_scoped :
      GhaCache → Bytes → Bytes → Bytes → State → Result (Option Bytes) × State
  get_scoped c prefix scope kind s =
      let restore = scoped_prefix prefix scope kind in fetch c restore (restore ∷ []) s

  unfoldable pub finish_upload : GhaCache → Bytes → ℕ → Option ℕ → State → Result Bool × State
  finish_upload c key len none s = (err (codes "uploading cache blob"), s)
  finish_upload c key len (some status) s =
      if not (is_success status)
      then (err (codes "blob upload returned " ++ net.show_status status), s)
      else rpc net.decode_finalize c (codes "FinalizeCacheEntryUpload")
          (finalize key c.version (decimal len)) s

  unfoldable pub follow_create :
      GhaCache → Bytes → Bytes → Result CreateResponse × State → Result Bool × State
  follow_create c key bytes (err e, s) = (if is_already_exists e then ok false else err e, s)
  follow_create c key bytes (ok resp, s) =
      if not resp.ok || same resp.signed_upload_url []
      then (ok false, s)
      else let (status, world) = net.upload resp.signed_upload_url bytes s.world in
        finish_upload c key (length bytes) status (record s { world = world })

  unfoldable pub put : GhaCache → Bytes → Bytes → State → Result Bool × State
  put c key bytes s =
      if s.exhausted
      then (ok false, s)
      else follow_create c key bytes
          (rpc net.decode_create c (codes "CreateCacheEntry") (create key c.version) s)

  unfoldable pub put_scoped :
      GhaCache → Bytes → Bytes → Bytes → Bytes → ℕ → Bytes → State → Result Bool × State
  put_scoped c prefix scope kind body stamp run s =
      put c (scoped_key prefix scope kind stamp run) body s
