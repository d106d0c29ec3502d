-- ===== src/Commons/Scoring.antt =====
-- commons/config_pubsub.go: the scoring parameters and their translation to libp2p's. Numbers of
-- type `float64` are only copied, and so are a parameter with its zero; so are the functions that
-- score a peer and the networks that are not scored, whose nil is `none`.
use p2pmq.Base.{String, Bool, false, List, [], ◌∷◌, Option, none, some}
use p2pmq.Base.Int.{ℤ, pos}
use p2pmq.Base.Dict.{Dict}

pub record Numbers : Type 1 where
  pub Float64 : Type 0
  pub zero_float : Float64
  pub ScoreFn : Type 0
  pub IpNet : Type 0

module _ (n : Numbers) where
  open n use {Float64, zero_float, ScoreFn, IpNet}

  pub record ScoringParamBase : Type 0 where
    pub weight : Float64
    pub decay : Float64
    pub cap : Float64
    pub quantum : ℤ

  pub record ScoringParamExtended : Type 0 where
    pub weight : Float64
    pub decay : Float64
    pub cap : Float64
    pub threshold : Float64
    pub window : ℤ
    pub activation : ℤ

  pub record IpColocationScoring : Type 0 where
    pub weight : Float64
    pub threshold : ℤ
    pub whitelist : List IpNet

  pub record AppSpecificScoring : Type 0 where
    pub score_fn : Option ScoreFn
    pub weight : Float64

  pub record TopicScoreParams : Type 0 where
    pub skip_atomic : Bool
    pub weight : Float64
    pub time_in_mesh : Option ScoringParamBase
    pub first_message_deliveries : Option ScoringParamBase
    pub mesh_message_deliveries : Option ScoringParamExtended
    pub mesh_failure_penalty : Option ScoringParamBase
    pub invalid_message_deliveries : Option ScoringParamBase

  pub record ScoringThresholds : Type 0 where
    pub skip_atomic : Bool
    pub gossip_threshold : Float64
    pub publish_threshold : Float64
    pub graylist_threshold : Float64
    pub accept_px_threshold : Float64
    pub opportunistic_graft_threshold : Float64

  pub record ScoringParams : Type 0 where
    pub skip_atomic : Bool
    pub thresholds : Option ScoringThresholds
    pub topics : Dict String TopicScoreParams
    pub topic_score_cap : Float64
    pub app_specific : Option AppSpecificScoring
    pub ip_colocation_factor : Option IpColocationScoring
    pub behaviour_penalty : Option ScoringParamExtended

  -- `pubsub.TopicScoreParams`
  pub record StdTopicParams : Type 0 where
    pub skip_atomic_validation : Bool
    pub topic_weight : Float64
    pub time_in_mesh_weight : Float64
    pub time_in_mesh_cap : Float64
    pub time_in_mesh_quantum : ℤ
    pub first_message_deliveries_weight : Float64
    pub first_message_deliveries_decay : Float64
    pub first_message_deliveries_cap : Float64
    pub mesh_message_deliveries_weight : Float64
    pub mesh_message_deliveries_decay : Float64
    pub mesh_message_deliveries_cap : Float64
    pub mesh_message_deliveries_threshold : Float64
    pub mesh_message_deliveries_window : ℤ
    pub mesh_message_deliveries_activation : ℤ
    pub mesh_failure_penalty_weight : Float64
    pub mesh_failure_penalty_decay : Float64
    pub invalid_message_deliveries_weight : Float64
    pub invalid_message_deliveries_decay : Float64

  -- `if p := ...; p != nil`, which leaves the zero value otherwise.
  abbrev field : {A B : Type 0} → Option A → B → (A → B) → B
  field none zero f = zero
  field (some p) zero f = f p

  unfoldable pub topic_to_std : TopicScoreParams → StdTopicParams
  topic_to_std tsp = record {
    skip_atomic_validation = tsp.skip_atomic;
    topic_weight = tsp.weight;
    time_in_mesh_weight = field tsp.time_in_mesh zero_float (λ p. p.weight);
    time_in_mesh_cap = field tsp.time_in_mesh zero_float (λ p. p.cap);
    time_in_mesh_quantum = field tsp.time_in_mesh (pos 0) (λ p. p.quantum);
    first_message_deliveries_weight = field tsp.first_message_deliveries zero_float (λ p. p.weight);
    first_message_deliveries_decay = field tsp.first_message_deliveries zero_float (λ p. p.decay);
    first_message_deliveries_cap = field tsp.first_message_deliveries zero_float (λ p. p.cap);
    mesh_message_deliveries_weight = field tsp.mesh_message_deliveries zero_float (λ p. p.weight);
    mesh_message_deliveries_decay = field tsp.mesh_message_deliveries zero_float (λ p. p.decay);
    mesh_message_deliveries_cap = field tsp.mesh_message_deliveries zero_float (λ p. p.cap);
    mesh_message_deliveries_threshold =
        field tsp.mesh_message_deliveries zero_float (λ p. p.threshold);
    mesh_message_deliveries_window = field tsp.mesh_message_deliveries (pos 0) (λ p. p.window);
    mesh_message_deliveries_activation =
        field tsp.mesh_message_deliveries (pos 0) (λ p. p.activation);
    mesh_failure_penalty_weight = field tsp.mesh_failure_penalty zero_float (λ p. p.weight);
    mesh_failure_penalty_decay = field tsp.mesh_failure_penalty zero_float (λ p. p.decay);
    invalid_message_deliveries_weight =
        field tsp.invalid_message_deliveries zero_float (λ p. p.weight);
    invalid_message_deliveries_decay =
        field tsp.invalid_message_deliveries zero_float (λ p. p.decay);
  }

  -- `pubsub.PeerScoreThresholds`
  pub record StdThresholds : Type 0 where
    pub skip_atomic_validation : Bool
    pub gossip_threshold : Float64
    pub publish_threshold : Float64
    pub graylist_threshold : Float64
    pub accept_px_threshold : Float64
    pub opportunistic_graft_threshold : Float64

  abbrev pub zero_thresholds : StdThresholds
  zero_thresholds = record {
    skip_atomic_validation = false;
    gossip_threshold = zero_float;
    publish_threshold = zero_float;
    graylist_threshold = zero_float;
    accept_px_threshold = zero_float;
    opportunistic_graft_threshold = zero_float;
  }

  unfoldable pub thresholds_to_std : Option ScoringThresholds → StdThresholds
  thresholds_to_std none = zero_thresholds
  thresholds_to_std (some t) = record {
    skip_atomic_validation = t.skip_atomic;
    gossip_threshold = t.gossip_threshold;
    publish_threshold = t.publish_threshold;
    graylist_threshold = t.graylist_threshold;
    accept_px_threshold = t.accept_px_threshold;
    opportunistic_graft_threshold = t.opportunistic_graft_threshold;
  }

  -- `pubsub.PeerScoreParams`, the fields that are written.
  pub record StdParams : Type 0 where
    pub skip_atomic_validation : Bool
    pub topics : Dict String StdTopicParams
    pub topic_score_cap : Float64
    pub app_specific_score : Option ScoreFn
    pub app_specific_weight : Float64
    pub ip_colocation_factor_threshold : ℤ
    pub ip_colocation_factor_weight : Float64
    pub ip_colocation_factor_whitelist : List IpNet
    pub behaviour_penalty_weight : Float64
    pub behaviour_penalty_decay : Float64
    pub behaviour_penalty_threshold : Float64

  -- The loop over the map of topics.
  unfoldable pub topics_to_std : Dict String TopicScoreParams → Dict String StdTopicParams
  topics_to_std [] = []
  topics_to_std ((topic, tsp) ∷ rest) = (topic, topic_to_std tsp) ∷ topics_to_std rest

  unfoldable pub params_to_std : ScoringParams → StdParams
  params_to_std sc = record {
    skip_atomic_validation = sc.skip_atomic;
    topics = topics_to_std sc.topics;
    topic_score_cap = sc.topic_score_cap;
    app_specific_score = field sc.app_specific none (λ p. p.score_fn);
    app_specific_weight = field sc.app_specific zero_float (λ p. p.weight);
    ip_colocation_factor_threshold = field sc.ip_colocation_factor (pos 0) (λ p. p.threshold);
    ip_colocation_factor_weight = field sc.ip_colocation_factor zero_float (λ p. p.weight);
    ip_colocation_factor_whitelist = field sc.ip_colocation_factor [] (λ p. p.whitelist);
    behaviour_penalty_weight = field sc.behaviour_penalty zero_float (λ p. p.weight);
    behaviour_penalty_decay = field sc.behaviour_penalty zero_float (λ p. p.decay);
    behaviour_penalty_threshold = field sc.behaviour_penalty zero_float (λ p. p.threshold);
  }

  unfoldable pub to_std : ScoringParams → StdParams × StdThresholds
  to_std sc = (params_to_std sc, thresholds_to_std sc.thresholds)

  -- `PeerScoreParams{}`
  abbrev pub zero_params : StdParams
  zero_params = record {
    skip_atomic_validation = false;
    topics = [];
    topic_score_cap = zero_float;
    app_specific_score = none;
    app_specific_weight = zero_float;
    ip_colocation_factor_threshold = pos 0;
    ip_colocation_factor_weight = zero_float;
    ip_colocation_factor_whitelist = [];
    behaviour_penalty_weight = zero_float;
    behaviour_penalty_decay = zero_float;
    behaviour_penalty_threshold = zero_float;
  }
