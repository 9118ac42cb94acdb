-- ===== src/Proxy/Tests.antt =====
-- The headers of the proxy on lists of fields.
use cicache.Prelude.{ℕ, List, [], ◌∷◌, Option, none, some, ◌&&◌, leb, if◌then◌else◌}
use cicache.Text.Utf8.{codes}
use cicache.Text.Compare.{same}
use cicache.Text.Number.{decimal}
use cicache.Http.{Field, values}
use cicache.Http.Instance.{visible}
use cicache.Entry.{Codec, contains}
use cicache.Entry.Headers.{text_values}

runs : Unit {0}
unfolding same contains values text_values visible decimal
runs = tt

abbrev fields : List Field
fields =
    (codes "host", codes "example.com")
    ∷ (codes "te", codes "trailers")
    ∷ (codes "etag", codes "one")
    ∷ (codes "etag", codes "two")
    ∷ []

abbrev codec : Codec
codec = record { to_vec = λ h. none; from_slice = λ b. none; digest = λ body. body }

abbrev from_u16 : ℕ → Option ℕ
from_u16 status = if leb 100 status && leb status 999 then some status else none
