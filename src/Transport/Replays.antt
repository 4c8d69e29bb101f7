-- ===== src/Transport/Replays.antt =====
-- transport_raw.go: what `sendH1` says of the commitment, when it sends a request again, and when it
-- gives a connection back for another request.
use repost_go.Http1.Gzip.{Gzip}
use repost_go.Http1.{Request, Response}
use repost_go.Prelude.{
  ◌≤◌, ◌≡◌, ◌⊎◌, Bool, true, false, ◌||◌, Option, none, some, List, [], ◌∷◌, length,
}
use repost_go.Response.{AttemptFailure, AttemptOutcome}
use repost_go.Transport.Exchange.{Connection, LeaseFacts, SentH1, exchange_h1, must_replay}
use repost_go.Transport.Outcomes.{Exchange}

-- Whether one of the exchanges has put a byte of the body on its connection.
unfoldable pub any_committed : List Exchange → Bool
any_committed [] = false
any_committed (x ∷ xs) = x.committed || any_committed xs

-- The commitment that a failure is to say, if there is one.
Says : Bool → Option AttemptFailure → Type 0
Says b none = Unit
Says b (some f) = f.committed ≡ b

SaysOutcome : Bool → AttemptOutcome → Type 0
SaysOutcome b o = Says b o.failure

Committed : SentH1 → Type 0
Committed s = SaysOutcome (any_committed s.exchanges) s.outcome

module _ (g : Gzip) {W : Type 0} where
  -- What a replay has been decided by.
  Replayed : LeaseFacts → Connection W → Request → SentH1 → Type 0
  Replayed lease c req s =
      (length s.exchanges ≤ 1)
      ⊎ ((length s.exchanges ≤ 2) × (must_replay lease (exchange_h1 g c req) ≡ true))
