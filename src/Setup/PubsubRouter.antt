-- ===== src/Setup/PubsubRouter.antt =====
-- core/pubsub.go: setupPubsubRouter, the options that libp2p's router gets, and its errors. The
-- scores, the regular expressions and the tracer's file are parameters.
use p2pmq.Base.{
  String, Bool, false, List, [], ◌∷◌, ◌++◌, Option, none, some, Result, ok, err, ◌==◌,
  if◌then◌else◌, string_key,
}
use p2pmq.Base.Int.{ℤ, is_pos, milliseconds}
use p2pmq.Commons.Pubsub.{MsgIdFnConfig, OverlayParams}
use p2pmq.Gossip.MsgId.{MsgIdFn, msg_id_fn, default_msg_id_fn}
use p2pmq.Gossip.Params.{GossipSubParams, gossip_sub_params}

pub record SubscriptionFilter : Type 0 where
  pub pattern : String
  pub limit : ℤ

pub record TraceConfig : Type 0 where
  pub json_file : String
  pub debug : Bool
  pub skiplist : List String

-- The fields of `PubsubConfig` that the router is set up with. `Scores` are its scoring parameters.
pub record RouterConfig (Scores : Type 0) : Type 0 where
  pub msg_id_fn_config : Option MsgIdFnConfig
  pub overlay : Option OverlayParams
  pub scoring : Option Scores
  pub max_message_size : ℤ
  pub sub_filter : Option SubscriptionFilter
  pub trace : Option TraceConfig

-- `pubsub.Option`, as far as it is used.
pub data PubsubOption (Scores : Type 0) : Type 0 where
  with_message_signing : Bool → PubsubOption Scores
  strict_no_sign with_blacklist with_peer_score_inspect with_app_specific_rpc_inspector :
      PubsubOption Scores
  with_gossip_sub_params : GossipSubParams → PubsubOption Scores
  with_message_id_fn : MsgIdFn → PubsubOption Scores
  with_peer_score : Scores → PubsubOption Scores
  with_max_message_size with_seen_messages_ttl : ℤ → PubsubOption Scores
  -- a filter of a pattern, with a limit if any
  with_subscription_filter : String → Option ℤ → PubsubOption Scores
  with_event_tracer : TraceConfig → PubsubOption Scores

module _ {Scores : Type 0} (defaults : GossipSubParams)
    (compile new_json_tracer : String → Option String) where
  abbrev pub msg_id_of : RouterConfig Scores → MsgIdFn
  msg_id_of cfg = elim cfg.msg_id_fn_config [
    | none ↦ default_msg_id_fn
    | some c ↦ msg_id_fn c.type c.size
  ]

  -- The options that do not fail.
  unfoldable pub base_options : RouterConfig Scores → List (PubsubOption Scores)
  base_options cfg =
      (with_message_signing false
        ∷ strict_no_sign
        ∷ with_gossip_sub_params (gossip_sub_params defaults cfg.overlay)
        ∷ with_message_id_fn (msg_id_of cfg)
        ∷ [])
      ++ (elim cfg.scoring [
        | none ↦ []
        | some scores ↦ with_peer_score scores ∷ with_peer_score_inspect ∷ []
      ])
      ++ (if is_pos cfg.max_message_size
          then with_max_message_size cfg.max_message_size ∷ []
          else [])
      ++ (elim cfg.overlay [
        | none ↦ []
        | some overlay ↦
            if is_pos (milliseconds overlay.seen_ttl)
            then with_seen_messages_ttl overlay.seen_ttl ∷ []
            else []
      ])
      ++ (with_blacklist ∷ [])

  -- `Limit` wraps the filter of the pattern.
  unfoldable pub filter_options : Option SubscriptionFilter → Result (List (PubsubOption Scores))
  filter_options none = ok []
  filter_options (some f) = elim (compile f.pattern) [
    | some e ↦ err e
    | none ↦
        ok (with_subscription_filter f.pattern (if is_pos f.limit then some f.limit else none) ∷ [])
  ]

  unfoldable pub trace_options : Option TraceConfig → Result (List (PubsubOption Scores))
  trace_options none = ok []
  trace_options (some t) =
      let opts = with_event_tracer t ∷ with_app_specific_rpc_inspector ∷ [] in
      if t.json_file == ""
      then ok opts
      else elim (new_json_tracer t.json_file) [ some e ↦ err e | none ↦ ok opts ]

  -- The options of `NewGossipSub`, or the error that comes first.
  unfoldable pub pubsub_options : RouterConfig Scores → Result (List (PubsubOption Scores))
  pubsub_options cfg = elim (filter_options cfg.sub_filter) [
    | err e ↦ err e
    | ok filters ↦ elim (trace_options cfg.trace) [
      | err e ↦ err e
      | ok tracers ↦ ok (base_options cfg ++ filters ++ tracers)
    ]
  ]

  -- The router, or the error.
  unfoldable pub setup_pubsub_router :
      {PubSub : Type 0}
      → (new_gossip_sub : List (PubsubOption Scores) → Result PubSub) → RouterConfig Scores
      → Result PubSub
  setup_pubsub_router new_gossip_sub cfg = elim (pubsub_options cfg) [
    | err e ↦ err e
    | ok opts ↦ new_gossip_sub opts
  ]
