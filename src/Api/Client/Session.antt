-- ===== src/Api/Client/Session.antt =====
-- A validation router of api/grpc whose client is a verifier of api/grpc/client. Of gRPC it is used
-- that what is received was sent.
use p2pmq.Base.{ℕ, ◌≡◌, Bool, true, false, List, some, string_key, nat_key}
use p2pmq.Router.Queue.{pick}
use p2pmq.Proto.{ValidationResult}
use p2pmq.Api.Outbox.{Message}
use p2pmq.Api.ValRouter.{Verdicts, ValRouter, new_val_router, find, Op, finding, step}
use p2pmq.Api.Client.Verifier as V

module _ (v : Verdicts) (validator : Message → ValidationResult) where
  pub record Session : Type 0 where
    pub server : ValRouter v
    pub client : V.ClientVerifier Message ValidationResult

  abbrev pub by_server : Op v → Bool
  by_server (finding mid res) = false
  by_server _ = true

  abbrev pub by_client : V.Op Message → Bool
  by_client (V.receives m) = false
  by_client _ = true

  -- The steps of the server and of the client, a message that gets through, and a result that does.
  pub data Runs (r : Session) : Session → Type 0 where
    rest : Runs r r
    served :
        {s : Session} {t : ValRouter v}
        → Runs r s
        → (o : Op v) → by_server o ≡ true
        → step v o s.server ≡ some t
        → Runs r (record s { server = t })
    worked :
        {s : Session} {c : V.ClientVerifier Message ValidationResult}
        → Runs r s
        → (o : V.Op Message) → by_client o ≡ true
        → V.step validator o s.client ≡ some c
        → Runs r (record s { client = c })
    heard :
        {s : Session} {c : V.ClientVerifier Message ValidationResult} {m : Message}
        {others : List Message}
        → Runs r s
        → (i : ℕ) → pick i s.server.outbox.delivered ≡ some (m, others)
        → V.step validator (V.receives m) s.client ≡ some c
        → Runs r (record s { client = c })
    answered :
        {s : Session} {res : ValidationResult} {m : Message}
        {others : List (ValidationResult × Message)}
        → Runs r s
        → (i : ℕ) → pick i s.client.sent ≡ some ((res, m), others)
        → Runs r (record s { server = find v m.message_id res s.server })

  unfoldable pub new_session : ℕ → Session
  new_session q_size = record { server = new_val_router v q_size; client = V.start }

  pub runs-client :
      (q_size : ℕ) {s : Session} → Runs (new_session q_size) s → V.Reach validator V.start s.client
  unfolding new_session
  runs-client q_size rest = V.here
  runs-client q_size (served k o b e) = runs-client q_size k
  runs-client q_size (worked k o b e) = V.next (runs-client q_size k) o e
  runs-client q_size (heard {m = m} k i d e) = V.next (runs-client q_size k) (V.receives m) e
  runs-client q_size (answered k i d) = runs-client q_size k
