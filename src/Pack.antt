-- ===== src/Pack.antt =====
-- src/pack.rs: the container that holds many small objects in one cache entry.
-- An object is a key and a body. `encode` and `decode` walk the same bytes as the source; a slice
-- whose range is not valid ends in `panicked`, and a loop that is cut short in `out_of_fuel`.
pub mod Records
pub mod Laws
pub mod Input
mod Tests
use cicache.Prelude.{
  ℕ, zero, suc, ◌+◌, ◌%◌, ◌^◌, Bool, ◌||◌, not, Option, none, some, List, [], ◌∷◌, ◌++◌, length,
  ltb, leb, if◌then◌else◌,
}
use cicache.Text.Utf8.{Bytes, codes, from_utf8}
use cicache.Text.Integer.{to_le_bytes, from_le_bytes, slice}
use cicache.Text.Compare.{same}

abbrev pub magic : Bytes
magic = codes "CICP"

pub record Object : Type 0 where
  pub key : Bytes
  pub body : Bytes

-- What a call that can panic returns.
pub data Run {ℓ} (A : Type ℓ) : Type ℓ where
  returned : A → Run A
  panicked : Run A
  out_of_fuel : Run A

pub data Error : Type 0 where
  not_a_pack : Error

pub data Result {ℓ} (A : Type ℓ) : Type ℓ where
  ok : A → Result A
  err : Error → Result A

-- `record` in `encode`: the bytes that one object takes.
abbrev pub record_len : Object → ℕ
record_len o = 4 + length o.key + 8 + length o.body

-- What the loop of `encode` appends for one object.
unfoldable pub record_bytes : Object → Bytes
record_bytes o =
    to_le_bytes 4 (length o.key % 2 ^ 32)
    ++ (o.key ++ (to_le_bytes 8 (length o.body % 2 ^ 64) ++ o.body))

unfoldable pub encode_from : Bytes → List Object → ℕ → Bytes
encode_from out [] max_bytes = out
encode_from out (o ∷ objects) max_bytes =
    encode_from (if ltb max_bytes (length out + record_len o) then out else out ++ record_bytes o)
      objects max_bytes

unfoldable pub encode : List Object → ℕ → Bytes
encode objects max_bytes = encode_from magic objects max_bytes

-- One round of the loop of `decode` from the cursor: it breaks, panics, or reads an object and
-- moves the cursor. `at + body_len` is the one sum that can pass the width of a `usize`.
pub data Round : Type 0 where
  stop : Round
  fault : Round
  read : Object → ℕ → Round

unfoldable pub read_body : Bytes → Bytes → ℕ → ℕ → Round
read_body raw key at body_len =
    let end = (at + body_len) % 2 ^ 64 in
    if ltb (length raw) end
    then stop
    else if ltb end at
    then fault
    else read (record { key = key; body = slice raw at end }) end

unfoldable pub read_key : Bytes → ℕ → ℕ → Round
read_key raw at key_len =
    if ltb (length raw) (at + key_len + 8)
    then stop
    else elim (from_utf8 (slice raw at (at + key_len))) [
      | none ↦ stop
      | some key ↦
          read_body raw key (at + key_len + 8)
            (from_le_bytes (slice raw (at + key_len) (at + key_len + 8)))
    ]

unfoldable pub read_record : Bytes → ℕ → Round
read_record raw at = read_key raw (at + 4) (from_le_bytes (slice raw at (at + 4)))

unfoldable pub decode_from : ℕ → Bytes → ℕ → List Object → Run (List Object)
decode_from zero raw at objects = out_of_fuel
decode_from (suc fuel) raw at objects =
    if leb (at + 4) (length raw)
    then (elim (read_record raw at) [
      | stop ↦ returned objects
      | fault ↦ panicked
      | read o next ↦ decode_from fuel raw next (objects ++ o ∷ [])
    ])
    else returned objects

abbrev pub ok_run {ℓ} : {A : Type ℓ} → Run A → Run (Result A)
ok_run (returned a) = returned (ok a)
ok_run panicked = panicked
ok_run out_of_fuel = out_of_fuel

-- Each round moves the cursor on, so the length of the input is fuel enough.
unfoldable pub decode : Bytes → Run (Result (List Object))
decode raw =
    if ltb (length raw) 4 || not (same (slice raw 0 4) magic)
    then returned (err not_a_pack)
    else ok_run (decode_from (suc (length raw)) raw 4 [])
