-- ===== src/Gossip/Scores.antt =====
-- core/gossip/scoring.go: the parameters of the peers' scores, and its default thresholds, which are
-- a parameter here as other numbers of type `float64` are.
use p2pmq.Base.{Option, none, some, string_key}
use p2pmq.Commons.Scoring.{Numbers, ScoringParams, StdParams, StdThresholds, to_std, zero_params}

module _ (n : Numbers) where
  -- `PeerScores`, of the `Scoring` of the configuration. `ToStd` returns no nil.
  unfoldable pub peer_scores :
      (defaults : StdThresholds n) → Option (ScoringParams n) → StdParams n × StdThresholds n
  peer_scores defaults none = (zero_params n, defaults)
  peer_scores defaults (some sc) = to_std n sc
