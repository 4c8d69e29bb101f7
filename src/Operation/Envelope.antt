-- ===== src/Operation/Envelope.antt =====
-- operation.go: the body of an operation, `marshalEnvelope`, and what of it is sent.
use repost_go.Operation.Prepare.Outcomes.{IsReady, ready-IsReady}
use repost_go.Operation.Prepare.{Preparation, ready, Ready, prepare}
use repost_go.Ordered.Limits.{Agrees, marshal_json_limit-Agrees}
use repost_go.Ordered.Steps.{within_or_over}
use repost_go.Ordered.{object, text, Members, no_members, set, marshal_json, marshal_json_limit}
use repost_go.Prelude.{ℕ, ◌+◌, ◌≤◌, ◌≡◌, ap, ◌∙◌, inl, inr, Option, some, Bytes, length, arith}
use repost_go.Response.Headers.{max_payload_bytes}
use repost_go.Text.{codes}

unfoldable pub envelope : {L : Type 0} → Bytes → Bytes → Bytes → Members L → Members L
unfolding set
envelope customer_id event_type timestamp data_object = set (codes "data") (object data_object) (
    set (codes "timestamp") (text timestamp) (
      set (codes "customerId") (text customer_id)
        (set (codes "type") (text event_type) no_members)))

sent_whole :
    (limit : ℕ) (bytes body : Bytes) (o : Option Bytes) (m : Option (Option Bytes))
    → Agrees limit bytes o
    → m ≡ some o
    → m ≡ some (some body)
    → length body ≤ limit
    → body ≡ bytes
sent_whole limit bytes body o m a g h l =
    let answered : o ≡ some a.answer = a.answered in
    let same : body ≡ a.answer = cc in
    elim (within_or_over (length bytes) limit) [
      | inl f ↦ same ∙ a.whole f
      | inr more ↦ absurd (omega (arith, ap length same, a.cut more, l))
    ]

module _ {L : Type 0} (encode_text : Bytes → Option Bytes) (encode_leaf : L → Option Bytes)
    (customer_id event_type timestamp : Bytes) (data_object : Members L) where
  unfoldable pub marshal_envelope : Option Bytes
  unfolding envelope marshal_json_limit
  marshal_envelope =
      marshal_json_limit encode_text encode_leaf max_payload_bytes
        (envelope customer_id event_type timestamp data_object)

  -- For any encoding of texts that writes at least two bytes more than a text has: where the
  -- envelope has a document and the encoder of a preparation answers what `marshalEnvelope` does, a
  -- preparation that succeeds sends that document, whole.
  pub ready-whole :
      ((s bytes : Bytes) → encode_text s ≡ some bytes → length s + 2 ≤ length bytes)
      → (p : Preparation) (r : Ready) (bytes : Bytes)
      → marshal_json encode_text encode_leaf
          (object (envelope customer_id event_type timestamp data_object))
        ≡ some bytes
      → p.marshal ≡ some marshal_envelope
      → prepare p ≡ ready r
      → r.body ≡ bytes
  unfolding marshal_envelope
  ready-whole law p r bytes h m e =
      let d : IsReady p r = ready-IsReady p r e in
      let a : Agrees max_payload_bytes bytes marshal_envelope =
        marshal_json_limit-Agrees encode_text encode_leaf law max_payload_bytes
          (envelope customer_id event_type timestamp data_object) bytes h in
      sent_whole max_payload_bytes bytes r.body marshal_envelope p.marshal a m d.marshaled d.body
