-- ===== src/Http/Instance.antt =====
-- Header maps as lists of fields, and URLs as records of their parts: values of the interfaces, at
-- which the theorems are applied.
use cicache.Prelude.{
  ℕ, ◌≡◌, refl, Bool, true, ◌&&◌, ◌||◌, Option, none, some, List, [], ◌∷◌, ◌++◌, arith, leb, ◌==◌,
  if◌then◌else◌,
}
use cicache.Text.Utf8.{Bytes, codes}
use cicache.Text.Compare.{same, same_iff}
use cicache.Http.{Field, HeaderLib, HeaderLaws, TextLaws, UrlLib, values, first, is_some}

unfoldable pub without : Bytes → List Field → List Field
without name [] = []
without name ((n, v) ∷ fields) =
    let rest = without name fields in if same n name then rest else (n, v) ∷ rest

-- Visible ASCII, or a tab.
unfoldable pub visible : Bytes → Bool
visible [] = true
visible (b ∷ bs) = ((leb 32 b && leb b 126) || b == 9) && visible bs

abbrev pub as_text : Bytes → Option Bytes
as_text v = if visible v then some v else none

abbrev pub listed : HeaderLib
listed = record {
  HeaderMap = List Field;
  empty = [];
  iter = λ m. m;
  append = λ m name value. m ++ (name, value) ∷ [];
  insert = λ m name value. without name m ++ (name, value) ∷ [];
  remove = λ m name. without name m;
  get = λ m k. first (values k m);
  contains_key = λ m k. is_some (first (values k m));
  to_str = as_text;
  from_str = as_text;
  parse_name = some;
}

values-append_one :
    (m : List Field) (name value k : Bytes)
    → values k (m ++ (name, value) ∷ [])
      ≡ (if same name k then values k m ++ value ∷ [] else values k m)
unfolding values
values-append_one [] name value k = ground arith
values-append_one ((n, v) ∷ m) name value k = ground (arith, values-append_one m name value k)

values-without :
    (m : List Field) (name k : Bytes)
    → values k (without name m) ≡ (if same name k then [] else values k m)
unfolding values without
values-without [] name k = ground arith
values-without ((n, v) ∷ m) name k =
    ground (arith, values-without m name k, same_iff n name, same_iff n k, same_iff name k)

pub listed-laws : HeaderLaws listed
unfolding values
listed-laws = record {
  values-empty = λ k. refl;
  values-append = values-append_one;
  values-insert = λ m name value k.
      ground (arith, values-append_one (without name m) name value k, values-without m name k);
  values-remove = values-without;
  get_lem = λ m k. refl;
  contains_key_lem = λ m k. refl;
}

pub listed-texts : TextLaws listed
listed-texts = record {
  to_str_lem = λ v s e. ground arith;
  from_str-to_str = λ v s e. ground arith;
  parse_name_lem = λ m name h. refl;
}

pub record Parts : Type 0 where
  pub scheme : Bytes
  pub host : Option Bytes
  pub port : Option ℕ
  pub path : Bytes
  pub query : List Field
  pub fragment : Option Bytes

-- Enough of a serialisation to tell the examples apart.
abbrev pub parts : UrlLib
parts = record {
  Url = Parts;
  parse = λ text. some (record {
    scheme = codes "http";
    host = some text;
    port = none;
    path = codes "/";
    query = [];
    fragment = none;
  });
  scheme = λ u. u.scheme;
  host_str = λ u. u.host;
  port = λ u. u.port;
  path = λ u. u.path;
  query_pairs = λ u. u.query;
  set_fragment = λ u f. record u { fragment = f };
  set_port = λ u p. record u { port = p };
  to_string = λ u.
      u.scheme
      ++ (codes "://"
          ++ (elim u.host [ none ↦ [] | some h ↦ h ]
              ++ (u.path ++ elim u.fragment [ none ↦ [] | some f ↦ b'#' ∷ f ])));
}
