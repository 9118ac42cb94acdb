-- ===== src/Ca.antt =====
-- src/ca.rs: the certificate authority of a run.
-- rcgen, rustls, base64, the platform's trust store and the file system are parameters. What is asked
-- of them is data: the parameters of a certificate, with times in seconds since the epoch.
pub mod Minting
pub mod Pem
pub mod Bundle
mod Tests
use cicache.Prelude.{
  ℕ, zero, suc, ◌+◌, ◌-◌, ◌*◌, Bool, true, false, not, Option, none, some, List, [], ◌∷◌, ◌++◌,
  length, take, drop, ◌≡◌, if◌then◌else◌,
}
use cicache.Text.Utf8.{Bytes, codes}
use cicache.Text.Compare.{same}
use cicache.Text.Search.{ends_with}
use cicache.Text.Lines.{push_lines}
use cicache.Gha.{Result, ok, err}
use cicache.Store.{Fs}

abbrev pub ca_common_name : Bytes
ca_common_name = codes "cicache local CA"

abbrev pub system_bundles : List Bytes
system_bundles =
    codes "/etc/ssl/certs/ca-certificates.crt"
    ∷ codes "/etc/pki/tls/certs/ca-bundle.crt"
    ∷ codes "/etc/ssl/ca-bundle.pem"
    ∷ []

pub data KeyUsage : Type 0 where
  key_cert_sign crl_sign digital_signature key_encipherment : KeyUsage

pub data ExtendedKeyUsage : Type 0 where
  server_auth : ExtendedKeyUsage

pub record Params : Type 0 where
  pub names : List Bytes
  pub common_name : Bytes
  pub organization : Option Bytes
  pub is_ca : Bool
  pub use_authority_key_identifier : Bool
  pub key_usages : List KeyUsage
  pub extended_key_usages : List ExtendedKeyUsage
  pub not_before : ℕ
  pub not_after : ℕ

-- `World` is where keys come from. An error is the text of its outermost context.
pub record CertLib : Type 1 where
  pub World : Type 0
  pub Key : Type 0
  pub Certificate : Type 0
  pub ServerConfig : Type 0
  pub generate_key : World → Option Key × World
  pub self_signed : Params → Key → Option Certificate
  -- `CertificateParams::new`, at a name.
  pub is_subject_name : Bytes → Bool
  pub signed_by : Params → Key → Certificate → Key → World → Option Certificate × World
  pub pem : Certificate → Bytes
  -- A configuration with the chain, the key and the protocols, without client authentication.
  pub single_cert : List Certificate → Key → List Bytes → Option ServerConfig
  pub base64 : Bytes → Bytes

-- The platform's roots, the number of errors in reading them, and the text of a file.
pub record Roots : Type 0 where
  pub certs : List Bytes
  pub errors : ℕ
  pub read_to_string : Bytes → Option Bytes

abbrev pub ca_params : Params
ca_params = record {
  names = [];
  common_name = ca_common_name;
  organization = some (codes "cicache");
  is_ca = true;
  use_authority_key_identifier = false;
  key_usages = key_cert_sign ∷ crl_sign ∷ digital_signature ∷ [];
  extended_key_usages = [];
  not_before = 1577836800;
  not_after = 2051222400;
}

abbrev pub day : ℕ
day = 24 * 60 * 60

-- `now` is later than the first day of the epoch.
unfoldable pub leaf_params : Bytes → ℕ → Params
leaf_params host now = record {
  names = host ∷ [];
  common_name = host;
  organization = none;
  is_ca = false;
  use_authority_key_identifier = true;
  key_usages = digital_signature ∷ key_encipherment ∷ [];
  extended_key_usages = server_auth ∷ [];
  not_before = now - day;
  not_after = now + 300 * day;
}

-- `chunks(64)`: the length is fuel enough.
unfoldable pub chunks_from : ℕ → ℕ → Bytes → List Bytes
chunks_from zero size bs = []
chunks_from (suc fuel) size [] = []
chunks_from (suc fuel) size (b ∷ bs) =
    take size (b ∷ bs) ∷ chunks_from fuel size (drop size (b ∷ bs))

abbrev pub chunks : ℕ → Bytes → List Bytes
chunks size bs = chunks_from (length bs) size bs

module _ (lib : CertLib) where
  open lib use {
    World, Key, Certificate, ServerConfig, generate_key, self_signed, is_subject_name, signed_by,
    pem, single_cert, base64,
  }

  pub record Ca : Type 0 where
    pub cert : Certificate
    pub key : Key
    pub ca_pem : Bytes
    pub configs : List (Bytes × ServerConfig)

  unfoldable pub self_sign : Key → Result Ca
  self_sign key = elim (self_signed ca_params key) [
    | none ↦ err (codes "self-signing CA")
    | some cert ↦ ok (record { cert = cert; key = key; ca_pem = pem cert; configs = [] })
  ]

  unfoldable pub generate : World → Result Ca × World
  generate w =
      let (key, w') = generate_key w in
      (elim key [ none ↦ err (codes "generating CA key") | some k ↦ self_sign k ], w')

  -- A certificate is given by its DER bytes.
  unfoldable pub pem_encode : Bytes → Bytes
  pem_encode cert =
      codes "-----BEGIN CERTIFICATE-----"
      ++ 10
        ∷ (push_lines (chunks 64 (base64 cert)) ++ (codes "-----END CERTIFICATE-----" ++ 10 ∷ []))

  unfoldable pub native_bundle : List Bytes → Bytes
  native_bundle [] = []
  native_bundle (cert ∷ certs) = pem_encode cert ++ native_bundle certs

  -- The first file of the list that can be read, with a line end.
  unfoldable pub first_bundle : (Bytes → Option Bytes) → List Bytes → Bytes
  first_bundle read [] = []
  first_bundle read (path ∷ paths) =
      let rest = first_bundle read paths in
      elim (read path) [
        | none ↦ rest
        | some contents ↦ if ends_with contents (10 ∷ []) then contents else contents ++ 10 ∷ []
      ]

  unfoldable pub system_bundle : Roots → Bytes → Bytes
  system_bundle roots [] = first_bundle roots.read_to_string system_bundles
  system_bundle roots (b ∷ bundle) = b ∷ bundle

  unfoldable pub with_ca : Ca → Bytes → Option Bytes
  with_ca ca [] = none
  with_ca ca (b ∷ bundle) = some ((b ∷ bundle) ++ ca.ca_pem)

  -- `none` is the refusal, whose text counts the errors.
  unfoldable pub trust_bundle : Ca → Roots → Option Bytes
  trust_bundle ca roots = with_ca ca (system_bundle roots (native_bundle roots.certs))

  unfoldable pub find_config : Bytes → List (Bytes × ServerConfig) → Option ServerConfig
  find_config host [] = none
  find_config host ((name, config) ∷ configs) =
      let rest = find_config host configs in if same name host then some config else rest

  unfoldable pub keep_config : Bytes → Ca → Option ServerConfig → Result ServerConfig × Ca
  keep_config host ca none = (err (codes "building rustls server config"), ca)
  keep_config host ca (some config) =
      (ok config, record ca { configs = (host, config) ∷ ca.configs })

  -- The chain is the leaf and the authority; the client's side stays on HTTP/1.1.
  unfoldable pub configure : Bytes → Ca → Key → Option Certificate → Result ServerConfig × Ca
  configure host ca leaf_key none = (err (codes "signing leaf certificate for " ++ host), ca)
  configure host ca leaf_key (some leaf) =
      keep_config host ca (single_cert (leaf ∷ ca.cert ∷ []) leaf_key (codes "http/1.1" ∷ []))

  -- The answer, the authority after it, and the world after it.
  abbrev Minted : Type 0
  Minted = Result ServerConfig × Ca × World

  unfoldable pub sign_leaf : ℕ → Bytes → Ca → Key → World → Minted
  sign_leaf now host ca leaf_key w =
      if not (is_subject_name host)
      then (err (codes "building leaf params"), ca, w)
      else (let (leaf, w') = signed_by (leaf_params host now) leaf_key ca.cert ca.key w in
          let (config, ca') = configure host ca leaf_key leaf in (config, ca', w'))

  unfoldable pub mint : ℕ → Bytes → Ca → Option Key × World → Minted
  mint now host ca (none, w) = (err (codes "generating leaf key"), ca, w)
  mint now host ca (some leaf_key, w) = sign_leaf now host ca leaf_key w

  unfoldable pub server_config : ℕ → Bytes → Ca → World → Minted
  server_config now host ca w = elim (find_config host ca.configs) [
    | some existing ↦ (ok existing, ca, w)
    | none ↦ mint now host ca (generate_key w)
  ]

  -- `write_files`: the two paths, where both files were written. `fs` writes below the directory.
  module _ (fs : Fs) where
    unfoldable pub write_bundle : Option Bytes → fs.Disk → Result (fs.File × fs.File) × fs.Disk
    write_bundle none d = (err (codes "no system trust roots found"), d)
    write_bundle (some bundle) d =
        let (written, d') = fs.write (fs.path (codes "ca-bundle.pem")) bundle d in
        (
          if written
              then ok (fs.path (codes "ca.pem"), fs.path (codes "ca-bundle.pem"))
              else err (codes "writing ca-bundle.pem"),
          d',
        )

    unfoldable pub write_files : Ca → Roots → fs.Disk → Result (fs.File × fs.File) × fs.Disk
    write_files ca roots d =
        let (written, d') = fs.write (fs.path (codes "ca.pem")) ca.ca_pem d in
        if written
        then write_bundle (trust_bundle ca roots) d'
        else (err (codes "writing ca.pem"), d')
