-- ===== src/Entry/Headers.antt =====
-- Which header fields a stored entry replays.
use cicache.Prelude.{
  ℕ, ◌≡◌, ◌≢◌, ◌∙◌, none, some, List, [], ◌∷◌, ◌++◌, append_assoc, append-nil, arith, Bool-cases,
  Option-cases, inl, inr, if◌then◌else◌,
}
use cicache.Text.Utf8.{Bytes}
use cicache.Text.Compare.{same_iff, same_refl}
use cicache.Http.{Field, HeaderLib, HeaderLaws, TextLaws, values}
use cicache.Entry.{Codec, hop_by_hop, contains, new, stored_headers, header_map_from, header_map}

module _ (lib : HeaderLib) where
  -- The values that read as texts.
  unfoldable pub text_values : List Bytes → List Bytes
  text_values [] = []
  text_values (v ∷ vs) =
      let rest = text_values vs in elim (lib.to_str v) [ none ↦ rest | some s ↦ s ∷ rest ]

  -- Every field of a list may stand in a header map.
  abbrev AllNames : List Field → Type 0
  AllNames [] = Unit
  AllNames ((name, value) ∷ fields) = (lib.parse_name name ≡ some name) × AllNames fields

  module _ (laws : HeaderLaws lib) (texts : TextLaws lib) where
    -- What `header_map` adds to a map, name by name.
    values-header_map_from :
        (m : lib.HeaderMap) (fields : List Field) (k : Bytes)
        → AllNames fields
        → values k (lib.iter (header_map_from lib m (stored_headers lib fields)))
          ≡ values k (lib.iter m)
            ++ (if contains hop_by_hop k then [] else text_values (values k fields))
    unfolding header_map_from stored_headers text_values values
    values-header_map_from m [] k names = ground (arith, append-nil (values k (lib.iter m)))
    values-header_map_from m ((name, value) ∷ fields) k (valid, names) =
        elim (Bool-cases (contains hop_by_hop name)) [
          | inl dropped ↦
              rw dropped (ground (arith, same_iff name k, values-header_map_from m fields k names))
          | inr kept ↦ elim (Option-cases (lib.to_str value)) [
            | inl opaque ↦ ground (arith, kept, opaque, values-header_map_from m fields k names)
            | inr (s, text) ↦ ground (
              arith,
              kept,
              text,
              texts.from_str-to_str value s text,
              texts.to_str_lem value s text,
              values-header_map_from (lib.append m name value) fields k names,
              laws.values-append m name value k,
              same_iff name k,
              append_assoc (values k (lib.iter m)) (value ∷ []) (text_values (values k fields)),
            )
          ]
        ]

    values-cons_ne_nil :
        (name value : Bytes) (fields : List Field) → values name ((name, value) ∷ fields) ≢ []
    unfolding values
    values-cons_ne_nil name value fields = rw (same_refl name) (λ e. cc)

    values_mono :
        (k name value : Bytes) (fields : List Field)
        → values k fields ≢ []
        → values k ((name, value) ∷ fields) ≢ []
    unfolding values
    values_mono k name value fields h = ground (arith)

    AllNames-fields :
        (fields : List Field)
        → ((name : Bytes) → values name fields ≢ [] → lib.parse_name name ≡ some name)
        → AllNames fields
    AllNames-fields [] h = tt
    AllNames-fields ((name, value) ∷ fields) h = (
      h name (values-cons_ne_nil name value fields),
      AllNames-fields fields (λ k e. h k (values_mono k name value fields e)),
    )

    -- A stored entry replays, for each name, the values that read as texts, in their order, and
    -- nothing under a name that is scoped to a hop.
    pub values-header_map :
        (codec : Codec) (now : ℕ) (url : Bytes) (status : ℕ) (headers : lib.HeaderMap)
        (body k : Bytes)
        → values k (lib.iter (header_map lib (new lib codec now url status headers body)))
          ≡ (if contains hop_by_hop k then [] else text_values (values k (lib.iter headers)))
    unfolding header_map new
    values-header_map codec now url status headers body k =
        values-header_map_from lib.empty (lib.iter headers) k
          (AllNames-fields (lib.iter headers) (λ name h. texts.parse_name_lem headers name h))
        ∙ rw (laws.values-empty k)
