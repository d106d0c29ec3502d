-- ===== src/Controller/Invariant.antt =====
-- What holds of the topic manager and of the listeners between two calls.
use p2pmq.Base.{
  ℕ, suc, String, List, [], ◌∷◌, Option, none, some, ◌≡◌, ◌∙◌, ap, sym, ◌≢◌, ◌⊎◌, inl, inr, ◌==◌,
  string_key, if◌then◌else◌, Bool-cases, arith,
}
use mathlib.Core.Path.{subst₂}
use p2pmq.Base.Dict.{lookup, insert, lookup-insert}
use p2pmq.Controller.Libp2p.{Libp2p}
use p2pmq.Controller.Topics.{
  TopicWrapper, Topics, topic_state_unknown, topic_state_joining, topic_state_joined,
  topic_state_err, joining_wrapper, get_sub,
}
use p2pmq.Controller.Pubsub.{Controller}

module _ (p : Libp2p) where
  pub record IsEntry (name : String) (tw : TopicWrapper p) : Type 0 where
    pub known :
        (tw.state ≡ topic_state_unknown)
        ⊎ ((tw.state ≡ topic_state_joining)
            ⊎ ((tw.state ≡ topic_state_joined) ⊎ (tw.state ≡ topic_state_err)))
    pub blank : tw.state ≡ topic_state_joining → tw ≡ joining_wrapper p
    pub held :
        tw.state ≢ topic_state_joining
        → (t : p.Topic) × (tw.topic ≡ some t) × (p.topic_name t ≡ name)

  abbrev pub AreEntries : Topics p → Type 0
  AreEntries topics =
      (name : String) (tw : TopicWrapper p) → lookup name topics ≡ some tw → IsEntry name tw

  -- How many goroutines were started for a topic, and how many subscriptions it holds.
  abbrev pub listener_count : String → List (String × p.Subscription) → ℕ
  listener_count name [] = 0
  listener_count name ((j, sub) ∷ l) =
      let rest = listener_count name l in if j == name then suc rest else rest

  abbrev pub sub_count : Option p.Subscription → ℕ
  sub_count none = 0
  sub_count (some sub) = 1

  pub record IsValid (c : Controller p) : Type 0 where
    pub entries : AreEntries c.topics
    pub listening :
        (name : String) → listener_count name c.listeners ≡ sub_count (get_sub p name c.topics)

  -- The controller knows the topic, and holds the handle `t`.
  pub record IsJoined (name : String) (c : Controller p) (t : p.Topic) : Type 0 where
    pub wrapper : TopicWrapper p
    pub found : lookup name c.topics ≡ some wrapper
    pub settled : wrapper.state ≢ topic_state_joining
    pub handle : wrapper.topic ≡ some t
    pub naming : p.topic_name t ≡ name

  pub AreEntries-insert :
      (name : String) (tw : TopicWrapper p) (topics : Topics p)
      → IsEntry name tw
      → AreEntries topics
      → AreEntries (insert name tw topics)
  AreEntries-insert name tw topics h hs j tw' e = elim (Bool-cases (name == j)) [
    | inl same ↦
        subst₂ IsEntry ((string_key.same_iff name j).0 same)
          (ground (arith, lookup-insert name j tw topics)) h
    | inr other ↦ hs j tw' (ground (arith, lookup-insert name j tw topics))
  ]

  pub get_sub-insert :
      (k j : String) (tw : TopicWrapper p) (topics : Topics p)
      → get_sub p j (insert k tw topics) ≡ (if k == j then tw.sub else get_sub p j topics)
  unfolding get_sub
  get_sub-insert k j tw topics = ground (arith, lookup-insert k j tw topics)

  -- A write that keeps the subscription of its entry keeps them all.
  pub get_sub-insert_same :
      (k j : String) (tw : TopicWrapper p) (topics : Topics p)
      → tw.sub ≡ get_sub p k topics
      → get_sub p j (insert k tw topics) ≡ get_sub p j topics
  get_sub-insert_same k j tw topics h =
      ground (arith, string_key.same_iff k j, get_sub-insert k j tw topics)

  -- The states that the operations leave.
  pub IsValid-world :
      (c : Controller p) (w : p.World) → IsValid c → IsValid (record c { world = w })
  IsValid-world c w h = record { entries = h.entries; listening = h.listening }

  pub IsValid-write :
      (c : Controller p) (w : p.World) (name : String) (tw : TopicWrapper p)
      → IsEntry name tw
      → tw.sub ≡ get_sub p name c.topics
      → IsValid c
      → IsValid (record c { topics = insert name tw c.topics; world = w })
  IsValid-write c w name tw he hs h = record {
    entries = AreEntries-insert name tw c.topics he h.entries;
    listening = λ j. h.listening j ∙ ap sub_count (sym (get_sub-insert_same name j tw c.topics hs));
  }

  pub IsValid-listener :
      (c : Controller p) (w : p.World) (name : String) (tw : TopicWrapper p) (sub : p.Subscription)
      → IsEntry name tw
      → tw.sub ≡ some sub
      → get_sub p name c.topics ≡ none
      → IsValid c
      → IsValid (record {
        topics = insert name tw c.topics;
        listeners = (name, sub) ∷ c.listeners;
        world = w;
      })
  IsValid-listener c w name tw sub he hs fresh h = record {
    entries = AreEntries-insert name tw c.topics he h.entries;
    listening = λ j.
        ground
          (arith, string_key.same_iff name j, get_sub-insert name j tw c.topics, h.listening j);
  }
