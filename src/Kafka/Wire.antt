-- ===== src/Kafka/Wire.antt =====
-- wire.go: the envelope on the wire.
use go_ddd.Prelude.{◌≡◌, refl, ap, Option, none, some, [], ◌∷◌, text_eq}
use go_ddd.Prelude.Int.{ℤ}
use go_ddd.Prelude.Text.{Text}
use go_ddd.Prelude.Map.{Map}
use go_ddd.Shared.{Time}
use go_ddd.EventBus.{Event, Payload}

-- wireEvent, by the members of its JSON object. `none` is a member that `omitempty` leaves out.
pub record WireEvent : Type 0 where
  pub id : Text
  pub name : Text
  pub source : Text
  pub aggregate_id : Text
  pub occurred_at : Time
  pub version : ℤ
  pub correlation_id : Text
  pub causation_id : Text
  pub payload : Payload
  pub metadata : Option (Map Text)

omit_empty : Option (Map Text) → Option (Map Text)
omit_empty (some (e ∷ m)) = some (e ∷ m)
omit_empty _ = none

-- JSONCodec.Encode, and JSONCodec.Decode of what it makes
unfoldable pub encode : Event → WireEvent
unfolding omit_empty
encode e = record {
  id = e.id;
  name = e.name;
  source = e.source;
  aggregate_id = e.aggregate_id;
  occurred_at = e.occurred_at;
  version = e.version;
  correlation_id = e.correlation_id;
  causation_id = e.causation_id;
  payload = e.payload;
  metadata = omit_empty e.metadata;
}

unfoldable pub decode : WireEvent → Event
decode w = record {
  id = w.id;
  name = w.name;
  source = w.source;
  aggregate_id = w.aggregate_id;
  occurred_at = w.occurred_at;
  version = w.version;
  correlation_id = w.correlation_id;
  causation_id = w.causation_id;
  payload = w.payload;
  metadata = w.metadata;
}

-- The entries that a metadata map has.
abbrev pub entries : Option (Map Text) → Map Text
entries none = []
entries (some m) = m

same_entries : (m : Option (Map Text)) → entries (omit_empty m) ≡ entries m
unfolding omit_empty
same_entries none = refl
same_entries (some []) = refl
same_entries (some (e ∷ m)) = refl

-- An envelope comes back from the wire as it was, except that an empty metadata map comes back as
-- no map; its entries are the same, and the second trip changes nothing.
pub decode-encode :
    (e : Event)
    → (record (decode (encode e)) { metadata = e.metadata } ≡ e)
      × (entries (decode (encode e)).metadata ≡ entries e.metadata)
      × (decode (encode (decode (encode e))) ≡ decode (encode e))
unfolding encode decode
decode-encode e =
    (refl, same_entries e.metadata, ap (λ m. record e { metadata = m }) (twice e.metadata))
  where
    twice : (m : Option (Map Text)) → omit_empty (omit_empty m) ≡ omit_empty m
    twice none = refl
    twice (some []) = refl
    twice (some (x ∷ m)) = refl
