-- ===== src/Http.antt =====
-- What src/ uses of the crates `http` (the header map of hyper and reqwest) and `url`: interfaces,
-- with the documented behaviour that theorems rely on as records of laws.
pub mod Instance
use cicache.Prelude.{
  ℕ, ◌≡◌, ◌≢◌, Bool, true, false, Option, none, some, List, [], ◌∷◌, ◌++◌, if◌then◌else◌,
}
use cicache.Text.Utf8.{Bytes}
use cicache.Text.Compare.{same}

abbrev pub Field : Type 0
Field = Bytes × Bytes

-- A header map. Names are their lower-case text, values their bytes; `iter` lists the fields.
pub record HeaderLib : Type 1 where
  pub HeaderMap : Type 0
  pub empty : HeaderMap
  pub iter : HeaderMap → List Field
  pub append : HeaderMap → Bytes → Bytes → HeaderMap
  pub insert : HeaderMap → Bytes → Bytes → HeaderMap
  pub remove : HeaderMap → Bytes → HeaderMap
  pub get : HeaderMap → Bytes → Option Bytes
  pub contains_key : HeaderMap → Bytes → Bool
  -- `HeaderValue::to_str`, `HeaderValue::from_str` and `parse::<HeaderName>`.
  pub to_str : Bytes → Option Bytes
  pub from_str : Bytes → Option Bytes
  pub parse_name : Bytes → Option Bytes

-- The values of one name, in order.
unfoldable pub values : Bytes → List Field → List Bytes
values k [] = []
values k ((name, value) ∷ fields) =
    let rest = values k fields in if same name k then value ∷ rest else rest

abbrev pub first : List Bytes → Option Bytes
first [] = none
first (v ∷ vs) = some v

abbrev pub is_some {ℓ} : {A : Type ℓ} → Option A → Bool
is_some none = false
is_some (some a) = true

-- What the documentation of `http::HeaderMap` says of these operations.
pub record HeaderLaws (lib : HeaderLib) : Type 0 where
  pub values-empty : (k : Bytes) → values k (lib.iter lib.empty) ≡ []
  pub values-append :
      (m : lib.HeaderMap) (name value k : Bytes)
      → values k (lib.iter (lib.append m name value))
        ≡ (if same name k then values k (lib.iter m) ++ value ∷ [] else values k (lib.iter m))
  pub values-insert :
      (m : lib.HeaderMap) (name value k : Bytes)
      → values k (lib.iter (lib.insert m name value))
        ≡ (if same name k then value ∷ [] else values k (lib.iter m))
  pub values-remove :
      (m : lib.HeaderMap) (name k : Bytes)
      → values k (lib.iter (lib.remove m name))
        ≡ (if same name k then [] else values k (lib.iter m))
  pub get_lem : (m : lib.HeaderMap) (k : Bytes) → lib.get m k ≡ first (values k (lib.iter m))
  pub contains_key_lem :
      (m : lib.HeaderMap) (k : Bytes) → lib.contains_key m k ≡ is_some (lib.get m k)

-- And of its names and values: a name in a map parses as itself, and a value that reads as a text
-- is written by the same text.
pub record TextLaws (lib : HeaderLib) : Type 0 where
  pub to_str_lem : (v s : Bytes) → lib.to_str v ≡ some s → s ≡ v
  pub from_str-to_str : (v s : Bytes) → lib.to_str v ≡ some s → lib.from_str s ≡ some v
  pub parse_name_lem :
      (m : lib.HeaderMap) (name : Bytes)
      → values name (lib.iter m) ≢ []
      → lib.parse_name name ≡ some name

-- A parsed URL. The two setters leave the URL as it is where the crate refuses the change.
pub record UrlLib : Type 1 where
  pub Url : Type 0
  pub parse : Bytes → Option Url
  pub scheme : Url → Bytes
  pub host_str : Url → Option Bytes
  pub port : Url → Option ℕ
  pub path : Url → Bytes
  pub query_pairs : Url → List Field
  pub set_fragment : Url → Option Bytes → Url
  pub set_port : Url → Option ℕ → Url
  pub to_string : Url → Bytes
