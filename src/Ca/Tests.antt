-- ===== src/Ca/Tests.antt =====
-- An authority at small libraries: keys are numbers, and a certificate is its common name.
use cicache.Prelude.{ℕ, ◌+◌, ◌≡◌, ◌⊎◌, refl, true, Option, none, some, List, [], ◌∷◌}
use cicache.Text.Utf8.{Bytes, codes}
use cicache.Text.Compare.{same}
use cicache.Text.Search.{ends_with, strip_prefix}
use cicache.Gha.{ok}
use cicache.Ca.{
  CertLib, Ca, Roots, generate, self_sign, server_config, mint, sign_leaf, configure, keep_config,
  find_config, trust_bundle, with_ca, system_bundle, native_bundle, first_bundle, leaf_params,
  ca_common_name,
}
use cicache.Ca.Minting.{run, IsMinted, run-IsMinted}
use cicache.Text.Lines.Laws.{lacks}

runs : Unit {0}
unfolding same generate self_sign server_config mint sign_leaf configure keep_config find_config run
    leaf_params trust_bundle with_ca system_bundle native_bundle first_bundle ends_with strip_prefix
    lacks
runs = tt

abbrev plain : CertLib
plain = record {
  World = ℕ;
  Key = ℕ;
  Certificate = Bytes;
  ServerConfig = List Bytes;
  generate_key = λ w. (some w, w + 1);
  self_signed = λ params key. some params.common_name;
  is_subject_name = λ host. true;
  signed_by = λ params key ca ca_key w. (some params.common_name, w + 1);
  pem = λ cert. cert;
  single_cert = λ chain key protocols. some chain;
  base64 = λ der. der;
}

abbrev ca : Ca plain
ca = record { cert = ca_common_name; key = 0; ca_pem = codes "CA"; configs = [] }

generates : (generate plain 0).0 ≡ ok (record ca { ca_pem = ca_common_name })
unfolding runs
generates = refl

-- The second handshake for a host generates no key.
mints_once : (run plain ((5, codes "a") ∷ (6, codes "b") ∷ (7, codes "a") ∷ []) ca 0).1 ≡ 4
unfolding runs
mints_once = refl

abbrev roots : (Bytes → Option Bytes) → Roots
roots read = record { certs = []; errors = 1; read_to_string = read }

no_roots : trust_bundle plain ca (roots (λ path. none)) ≡ none
unfolding runs
no_roots = refl

-- A file that is empty passes for the system's roots.
empty_file : trust_bundle plain ca (roots (λ path. some [])) ≡ some (10 ∷ codes "CA")
unfolding runs
empty_file = refl

run-IsMinted_example :
    (◌≡◌ {A = Option (List Bytes)} none (some (codes "a" ∷ ca_common_name ∷ [])))
    ⊎ IsMinted plain ca (codes "a") (codes "a" ∷ ca_common_name ∷ [])
unfolding runs
run-IsMinted_example =
    run-IsMinted plain ((5, codes "a") ∷ []) ca 0 (codes "a") (codes "a" ∷ ca_common_name ∷ []) refl
