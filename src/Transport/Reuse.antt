-- ===== src/Transport/Reuse.antt =====
-- transport_raw.go: the exchanges that end without an error, and the connections that are given back
-- for another request.
use repost_go.Http1.Gzip.{Gzip, IsReader}
use repost_go.Http1.Reading.{read_final_response}
use repost_go.Http1.ReadingBounds.{IsAccepted, read_final_response-IsAccepted}
use repost_go.Http1.Writing.{Written, write_request, request_head, valid_request}
use repost_go.Http1.Written.{write_request-whole}
use repost_go.Http1.{ReadError, Request}
use repost_go.Prelude.{
  ◌≡◌, refl, ◌⊎◌, inl, inr, Bool, true, false, not, ◌&&◌, Option, none, some, ◌++◌, ◌==◌, arith,
  Bool-cases, if_P, Option_P, length,
}
use repost_go.Transport.Exchange.{
  Connection, Dialled, not_dialled, fresh, other_resource, LeaseFacts, Clocks, SentH1, failed,
  read_error, write_error, stopped_exchange, exchange_h1, exchange_read, must_replay, replay,
  finish_exchange, send_h1,
}
use repost_go.Transport.Outcomes.{Exchange, ExchangeError, caused, still_running}
use repost_go.Transport.Requests.{response_closes_connection}

-- What holds where there is no error.
When : Option ExchangeError → Type 0 → Type 0
When none T = T
When (some e) T = Unit

answered :
    (T : Type 0) (o : Option ReadError) (f : ReadError → ExchangeError)
    → (o ≡ none → T)
    → When (elim o [ none ↦ none | some e ↦ some (f e) ]) T
unfolding When
answered T none f h = h refl
answered T (some r) f h = tt

when : (T : Type 0) (o : Option ExchangeError) → When o T → o ≡ none → T
unfolding When
when T none h e = h
when T (some x) h e = absurd (cc)

four : (a b c d : Bool) → (not a && b && c && not d) ≡ true → (a ≡ false) × (b ≡ true) × (d ≡ false)
four a b c d h = ground (arith, h)

error_none : (o : Option ExchangeError) → elim o [ none ↦ false | some e ↦ true ] ≡ false → o ≡ none
error_none none h = refl
error_none (some e) h = absurd (cc)

module _ {W : Type 0} where
  -- What an exchange without an error has done.
  unfoldable pub IsDone : Connection W → Request → Exchange → Type 0
  unfolding IsAccepted
  IsDone c req x =
      (valid_request req ≡ true)
      × ((write_request c.write c.writer req).sent ≡ request_head req ++ req.body)
      × (x.committed ≡ not (length req.body == 0))
      × IsAccepted x.response

  Done : Connection W → Request → Exchange → Type 0
  Done c req x = When x.error (IsDone c req x)

  stopped-Done :
      (c : Connection W) (req : Request) (b : Bool) (e : ExchangeError)
      → Done c req (stopped_exchange b e)
  unfolding Done When
  stopped-Done c req b e = tt

module _ (g : Gzip) (law : IsReader g) {W : Type 0} where
  exchange_read-Done :
      (c : Connection W) (req : Request) (m : Bool)
      → (valid_request req ≡ true)
        × ((write_request c.write c.writer req).sent ≡ request_head req ++ req.body)
        × (m ≡ not (length req.body == 0))
      → Done c req (exchange_read g c m)
  unfolding Done IsDone exchange_read
  exchange_read-Done c req m (valid, sent, marked) =
      answered _ (read_final_response g c.delivered).error (read_error c.read_cause)
        λ q. (valid, sent, marked, read_final_response-IsAccepted g law c.delivered q)

  exchange_h1-Done : (c : Connection W) (req : Request) → Done c req (exchange_h1 g c req)
  unfolding exchange_h1
  exchange_h1-Done c req =
      let w : Written W = write_request c.write c.writer req in
      Option_P (Done c req) c.deadline_error _ _
        (λ _.
          Option_P (Done c req) w.error _ _
            (λ e. exchange_read-Done c req w.marked (write_request-whole c.write c.writer req e))
            λ e _. stopped-Done c req w.marked (write_error c.write_cause e))
        λ cause _. stopped-Done c req false (caused cause)

  -- An exchange over HTTP/1.1 ends without an error only where the request is valid, the connection has
  -- taken its head and its body and nothing else, and the response is accepted by the reader; it is then
  -- marked as committed exactly if the body is not empty.
  pub exchange_h1-IsDone :
      (c : Connection W) (req : Request)
      → (exchange_h1 g c req).error ≡ none
      → IsDone c req (exchange_h1 g c req)
  exchange_h1-IsDone c req e =
      when _ (exchange_h1 g c req).error (unfold Done in exchange_h1-Done c req) e

  Reusable : Connection W → Request → Clocks → SentH1 → Type 0
  Reusable c req t s =
      (s.reusable ≡ false)
      ⊎ (((exchange_h1 g c req).error ≡ none)
          × (still_running t.at_release ≡ true)
          × (response_closes_connection (exchange_h1 g c req).response.headers ≡ false))

  finish_exchange-Reusable :
      (c : Connection W) (req : Request) (t : Clocks)
      → Reusable c req t (finish_exchange (exchange_h1 g c req) t)
  unfolding finish_exchange Reusable
  finish_exchange-Reusable c req t =
      elim (Bool-cases (finish_exchange (exchange_h1 g c req) t).reusable) [
        | inr e ↦ inl e
        | inl e ↦
            let (a, b, d) = four _ _ _ _ e in inr (error_none (exchange_h1 g c req).error a, b, d)
      ]

  replay-Reusable :
      (c : Connection W) (req : Request) (x : Exchange) (t : Clocks) (d : Dialled W)
      → Reusable c req t (replay g x req t d)
  unfolding replay Reusable
  replay-Reusable c req x t (not_dialled e) = inl refl
  replay-Reusable c req x t other_resource = inl refl
  replay-Reusable c req x t (fresh d) = inl refl

  send_h1-Reusable :
      (lease : LeaseFacts) (c : Connection W) (req : Request) (redial : Dialled W) (t : Clocks)
      → Reusable c req t (send_h1 g lease c req redial t)
  unfolding send_h1
  send_h1-Reusable lease c req redial t =
      let x : Exchange = exchange_h1 g c req in
      if_P (Reusable c req t) (failed x && lease.client_certificate_requested) _ _
        (λ _. unfold Reusable in inl refl)
        λ _.
          if_P (Reusable c req t) (must_replay lease x) _ _ (λ _. replay-Reusable c req x t redial)
            λ _. finish_exchange-Reusable c req t

  -- A connection is given back for another request only where the exchange on it ended without an error,
  -- which leaves its request written whole and its response accepted, the context of the attempt was still running, and the
  -- response does not ask for the connection to be closed.
  pub send_h1_reuses :
      (lease : LeaseFacts) (c : Connection W) (req : Request) (redial : Dialled W) (t : Clocks)
      → (send_h1 g lease c req redial t).reusable ≡ true
      → IsDone c req (exchange_h1 g c req)
        × (still_running t.at_release ≡ true)
        × (response_closes_connection (exchange_h1 g c req).response.headers ≡ false)
  unfolding Reusable
  send_h1_reuses lease c req redial t e = elim (send_h1-Reusable lease c req redial t) [
    | inl h ↦ absurd (cc)
    | inr (a, b, d) ↦ (exchange_h1-IsDone c req a, b, d)
  ]
