-- ===== src/Bls/Nodes.antt =====
-- examples/bls/node.go: a new node, `Broadcast`, and a run of `Consume`.
use p2pmq.Base.{ℕ, String, List, [], ◌∷◌, ◌++◌, Option, some, Result, ok, err, string_key}
use p2pmq.Base.Dict.{Dict}
use p2pmq.Bls.Report.{SignedReport}
use p2pmq.Bls.ReportBuffer.{new_report_buffer, report_buffer_size}
use p2pmq.Bls.Crypto.{Crypto}
use p2pmq.Bls.Node.{Node}
use p2pmq.Bls.InternalNet.{node_consume}

-- `Broadcast`: `connect` is the connection or an error, `marshal` the JSON of a report, and
-- `publish` the control client's call.
unfoldable pub broadcast :
    {Conn : Type 0}
    → Result Conn
    → (SignedReport → Result (List ℕ))
    → (Conn → String → List ℕ → Option String)
    → SignedReport
    → Option String
broadcast (err e) marshal publish report = some e
broadcast (ok conn) marshal publish report = elim (marshal report) [
  | err e ↦ some e
  | ok bytes ↦ publish conn report.network bytes
]

module _ (c : Crypto) where
  -- `NewNode`, without its clients; the store of public keys is given.
  unfoldable pub new_node : Dict String c.PublicKey → Node c
  new_node pubstore = record {
    pubstore = pubstore;
    reports = new_report_buffer report_buffer_size;
    shares = [];
    internal_reports = [];
  }

  -- The messages that the consumer hands to `Consume`, one after the other, and all that is given
  -- to `Broadcast` meanwhile.
  unfoldable pub consume_all :
      (SignedReport → Option String) → List SignedReport → Node c → Node c × List SignedReport
  consume_all send [] n = (n, [])
  consume_all send (sr ∷ l) n =
      let (n', sent) = node_consume c send (some sr) n in
      let (final, later) = consume_all send l n' in (final, sent ++ later)
