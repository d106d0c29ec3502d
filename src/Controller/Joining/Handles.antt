-- ===== src/Controller/Joining/Handles.antt =====
-- Whose topics the wrappers and the calls hold, whatever the order of their steps.
use p2pmq.Base.{
  ℕ, false, String, [], Option, some, ◌≡◌, ap, inl, inr, ◌==◌, string_key, nat_key, Bool-cases,
  arith,
}
use p2pmq.Base.Dict.{lookup}
use p2pmq.Commons.Pubsub.{PubsubConfig}
use p2pmq.Controller.Libp2p.{Libp2p, IsNaming}
use mathlib.Core.Path.{subst}
use p2pmq.Controller.Joining.Owned.{
  Owner, Fits, IsOwned, Extends-Fits, Keeps, KeepsAfter, move-Keeps,
}
use p2pmq.Controller.Joining.{Shared, Pc, looking, finished, move, System, Reach, here, next, go_on}

module _ (p : Libp2p) where
  -- What holds of the calls and of what they share.
  record AreOwned (topic_of : ℕ → String) (q : System p) : Type 0 where
    owner : Owner p
    owned : IsOwned p owner q.shared
    fits : (i : ℕ) → Fits p owner q.shared.fresh (topic_of i) (q.calls i)

  -- `newTopicManager`, and calls that have not begun.
  abbrev pub new_system : p.World → System p
  new_system w = record {
    shared = record { names = []; heap = []; fresh = 0; locked = false; world = w };
    calls = λ i. looking;
  }

  new_system-AreOwned : (topic_of : ℕ → String) (w : p.World) → AreOwned topic_of (new_system w)
  unfolding lookup
  new_system-AreOwned topic_of w = record {
    owner = λ a. "";
    owned = record { named = λ n a e. ground arith; cells = λ a tw t e f. ground arith };
    fits = λ i. tt;
  }

  module _ (cfg : PubsubConfig) (naming : IsNaming p) (topic_of : ℕ → String) where
    step-AreOwned :
        (q : System p) (i : ℕ) (t : Shared p) (pc : Pc p)
        → AreOwned topic_of q
        → move p cfg (topic_of i) q.shared (q.calls i) ≡ some (t, pc)
        → AreOwned topic_of (record { shared = t; calls = go_on i pc q.calls })
    step-AreOwned q i t pc h e = record {
      owner = k.owner';
      owned = k.owned;
      fits = λ j. elim (Bool-cases (i == j)) [
        | inl b ↦ rw b (
            subst (λ (n : String). Fits p k.owner' t.fresh n pc)
              (ap topic_of ((nat_key.same_iff i j).0 b)) k.fits)
        | inr b ↦ rw b (
            Extends-Fits p h.owner k.owner' q.shared.fresh t.fresh (topic_of j) (q.calls j)
              k.extends (h.fits j))
      ];
    }
      where
        k : Keeps p h.owner (topic_of i) q.shared t pc
        k =
            subst (KeepsAfter p h.owner (topic_of i) q.shared) e
              (move-Keeps p cfg naming (topic_of i) h.owner q.shared h.owned (q.calls i) (h.fits i))

    Reach-AreOwned :
        {r q : System p} → AreOwned topic_of r → Reach p cfg topic_of r q → AreOwned topic_of q
    Reach-AreOwned h here = h
    Reach-AreOwned h (next {s = s} {t = t} {pc = pc} k i e) =
        step-AreOwned s i t pc (Reach-AreOwned h k) e

    -- However the steps of any number of calls of tryJoin on a new topic manager are interleaved,
    -- a call that returns a topic returns one with the name it was asked for, where libp2p's Join
    -- names its topics so.
    pub handle_named :
        (w : p.World) (q : System p) (i : ℕ) (t : p.Topic) (e : Option String)
        → Reach p cfg topic_of (new_system w) q
        → q.calls i ≡ finished (some t) e
        → p.topic_name t ≡ topic_of i
    handle_named w q i t e k f = subst (Fits p h.owner q.shared.fresh (topic_of i)) f (h.fits i)
      where
        h : AreOwned topic_of q
        h = Reach-AreOwned (new_system-AreOwned topic_of w) k
