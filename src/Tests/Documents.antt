-- ===== src/Tests/Documents.antt =====
-- ordered.go: runs of the encoders, and concrete inputs of the theorems on them.
use repost_go.Operation.Envelope.{envelope, marshal_envelope, ready-whole}
use repost_go.Operation.Prepare.{Preparation, Prepared, ready, Ready, prepare}
use repost_go.Ordered.Limits.{Agrees, marshal_json_limit-Agrees}
use repost_go.Ordered.{
  object, array, text, leaf, Members, no_members, member, no_items, item, marshal_json,
  marshal_json_limit,
}
use repost_go.Prelude.{
  ◌+◌, ◌≤◌, ◌≡◌, refl, Option, some, [], ◌∷◌, ◌++◌, Bytes, length, arith, length-append,
}
use repost_go.Tests.Preparing.{preparation, prepared}
use repost_go.Text.{codes}

-- An encoding of texts in which nothing is escaped.
abbrev quoted : Bytes → Option Bytes
quoted s = some (b'"' ∷ (s ++ (b'"' ∷ [])))

quoted-law : (s bytes : Bytes) → quoted s ≡ some bytes → length s + 2 ≤ length bytes
quoted-law s bytes h = ground (arith, h, length-append s (b'"' ∷ []))

abbrev sample : Members Bytes
sample =
    member (codes "a") (array (item (text (codes "b")) (item (leaf (codes "10")) no_items)))
      (member (codes "c") (object no_members) no_members)

abbrev sample_json : Bytes
sample_json = codes "{\"a\":[\"b\",10],\"c\":{}}"

encodes : marshal_json quoted some (object sample) ≡ some sample_json
unfolding marshal_json
encodes = refl

encodes_whole : marshal_json_limit quoted some 21 sample ≡ some sample_json
unfolding marshal_json_limit
encodes_whole = refl

encodes_a_part : marshal_json_limit quoted some 8 sample ≡ some (codes "{\"a\":[\"b\"")
unfolding marshal_json_limit
encodes_a_part = refl

marshal_json_limit-Agrees_example : Agrees 8 sample_json (marshal_json_limit quoted some 8 sample)
marshal_json_limit-Agrees_example =
    marshal_json_limit-Agrees quoted some quoted-law 8 sample sample_json encodes

abbrev envelope_json : Bytes
envelope_json =
    codes
      "{\"type\":\"t.x\",\"customerId\":\"c1\",\"timestamp\":\"now\",\"data\":{\"a\":[\"b\",10],\"c\":{}}}"

abbrev delivering : Preparation
delivering = record preparation { marshal = some (some envelope_json) }

abbrev delivered : Ready
delivered = record prepared { body = envelope_json; request_bytes = length envelope_json }

delivers : prepare delivering ≡ ready delivered
unfolding prepare repost_go.Operation.Prepare.◌>>=◌ repost_go.Operation.Prepare.require
delivers = refl

envelope_encodes :
    marshal_json quoted some (object (envelope (codes "c1") (codes "t.x") (codes "now") sample))
    ≡ some envelope_json
unfolding marshal_json envelope
envelope_encodes = refl

marshals :
    delivering.marshal
    ≡ some (marshal_envelope quoted some (codes "c1") (codes "t.x") (codes "now") sample)
unfolding marshal_envelope
marshals = refl

ready-whole_example : delivered.body ≡ envelope_json
ready-whole_example =
    ready-whole quoted some (codes "c1") (codes "t.x") (codes "now") sample quoted-law delivering
      delivered envelope_json envelope_encodes marshals delivers
