-- ===== src/Api/Linked.antt =====
-- Which calls the channels of the pending results belong to.
use mathlib.Core.Path.{subst}
use p2pmq.Base.{
  ℕ, ◌<◌, ◌≡◌, String, Option, none, some, Option-cases, inl, inr, arith, sym, ◌∙◌, string_key,
  nat_key,
}
use p2pmq.Base.Dict.{lookup, lookup-insert}
use p2pmq.Router.Queue.{pick}
use p2pmq.Proto.{ValidationResult}
use p2pmq.Api.Outbox.{Message, Outbox}
use p2pmq.Api.ValRouter.{
  Verdicts, added, leaving, ValRouter, new_val_router, push_wait, cancel, find, resolve_to, resolve,
  stream, Op, pushing, enqueuing, awaiting, expiring, leaving_call, finding, resolving_at, taking,
  listening, hanging_up, sending_at, step, Reach, here, next,
}
use p2pmq.Api.Moves.{IsMove, enqueue-IsMove, await-IsMove, expire-IsMove, leave-IsMove}

module _ (v : Verdicts) where
  abbrev pub mid_of : ℕ → ValRouter v → Option String
  mid_of n r = elim (lookup n r.waiters) [ none ↦ none | some w ↦ some w.message.message_id ]

  -- The channels of the map are those of calls with the id that they stand under.
  pub record IsLinked (r : ValRouter v) : Type 0 where
    pub fresh : (n : ℕ) (mid : String) → mid_of n r ≡ some mid → n < r.calls
    pub linked :
        (mid : String) (n : ℕ) → lookup mid r.results ≡ some (some n) → mid_of n r ≡ some mid

  -- A step that makes no call, and only takes channels away.
  pub record IsKept (s t : ValRouter v) : Type 0 where
    pub mids : (n : ℕ) → mid_of n t ≡ mid_of n s
    pub same_calls : t.calls ≡ s.calls
    pub mapped :
        (mid : String) (n : ℕ)
        → lookup mid t.results ≡ some (some n)
        → lookup mid s.results ≡ some (some n)

  kept-IsLinked : (s t : ValRouter v) → IsKept s t → IsLinked s → IsLinked t
  kept-IsLinked s t k h = record {
    fresh = λ n mid e. rw k.same_calls (h.fresh n mid (sym (k.mids n) ∙ e));
    linked = λ mid n e. k.mids n ∙ h.linked mid n (k.mapped mid n e);
  }

  pub move-IsKept : (k : ℕ) (s t : ValRouter v) → IsMove v k s t → IsKept s t
  unfolding cancel
  move-IsKept k s t m = record {
    mids = λ n. ground (
      arith,
      m.found,
      m.moved,
      lookup-insert k n (record m.waiter { phase = m.phase }) s.waiters,
    );
    same_calls = m.same_calls;
    mapped = λ mid n e. elim m.mapped [
      | inl kept ↦ rw kept at e
      | inr cut ↦ ground (arith, lookup-insert m.waiter.message.message_id mid none s.results)
    ];
  }

  pub resolve-IsKept : (i : ℕ) (s t : ValRouter v) → resolve v i s ≡ some t → IsKept s t
  unfolding resolve resolve_to
  resolve-IsKept i s t e = elim (Option-cases (pick i s.resolving)) [
    | inl z ↦ absurd (ground arith)
    | inr (((none, res), rest), z) ↦ record {
      mids = λ n. ground arith;
      same_calls = ground arith;
      mapped = λ mid n f. ground arith;
    }
    | inr (((some k, res), rest), z) ↦ elim (Option-cases (lookup k s.waiters)) [
      | inl f ↦ record {
        mids = λ n. ground arith;
        same_calls = ground arith;
        mapped = λ mid n f. ground arith;
      }
      | inr (w, f) ↦ record {
        mids = λ n. ground (arith, lookup-insert k n (record w { phase = leaving res }) s.waiters);
        same_calls = ground arith;
        mapped = λ mid n f. ground arith;
      }
    ]
  ]

  pub stream-IsKept : (o : Option Outbox) (s t : ValRouter v) → stream v o s ≡ some t → IsKept s t
  unfolding stream
  stream-IsKept o s t e = record {
    mids = λ n. ground arith;
    same_calls = ground arith;
    mapped = λ mid n f. ground arith;
  }

  push-IsLinked : (m : Message) (s : ValRouter v) → IsLinked s → IsLinked (push_wait v m s)
  unfolding push_wait
  push-IsLinked m s h = record {
    fresh = λ n mid e. ground (
      arith,
      h.fresh n mid,
      lookup-insert s.calls n (record { message = m; phase = added }) s.waiters,
    );
    linked = λ mid n e. ground (
      arith,
      h.linked mid n,
      h.fresh n mid,
      lookup-insert m.message_id mid (some s.calls) s.results,
      string_key.same_iff m.message_id mid,
      lookup-insert s.calls n (record { message = m; phase = added }) s.waiters,
    );
  }

  pub find-IsKept :
      (mid : String) (a : ValidationResult) (s : ValRouter v) → IsKept s (find v mid a s)
  unfolding find
  find-IsKept mid a s = record {
    mids = λ n. ground arith;
    same_calls = ground arith;
    mapped = λ j n f. ground arith;
  }

  pub step-IsLinked : (o : Op v) (s t : ValRouter v) → step v o s ≡ some t → IsLinked s → IsLinked t
  unfolding step
  step-IsLinked (pushing m) s t e h = subst IsLinked (ground arith) (push-IsLinked m s h)
  step-IsLinked (enqueuing k) s t e h =
      kept-IsLinked s t (move-IsKept k s t (enqueue-IsMove v k s t e)) h
  step-IsLinked (awaiting k) s t e h =
      kept-IsLinked s t (move-IsKept k s t (await-IsMove v k s t e)) h
  step-IsLinked (expiring k) s t e h =
      kept-IsLinked s t (move-IsKept k s t (expire-IsMove v k s t e)) h
  step-IsLinked (leaving_call k) s t e h =
      kept-IsLinked s t (move-IsKept k s t (leave-IsMove v k s t e)) h
  step-IsLinked (finding mid a) s t e h =
      subst IsLinked (ground arith) (kept-IsLinked s (find v mid a s) (find-IsKept mid a s) h)
  step-IsLinked (resolving_at i) s t e h = kept-IsLinked s t (resolve-IsKept i s t e) h
  step-IsLinked taking s t e h = kept-IsLinked s t (stream-IsKept _ s t e) h
  step-IsLinked listening s t e h = kept-IsLinked s t (stream-IsKept _ s t e) h
  step-IsLinked hanging_up s t e h = kept-IsLinked s t (stream-IsKept _ s t e) h
  step-IsLinked (sending_at i works) s t e h = kept-IsLinked s t (stream-IsKept _ s t e) h

  pub Reach-IsLinked :
      (q_size : ℕ) {s : ValRouter v} → Reach v (new_val_router v q_size) s → IsLinked s
  unfolding new_val_router lookup
  Reach-IsLinked q_size here = record {
    fresh = λ n mid e. absurd (ground arith);
    linked = λ mid n e. absurd (ground arith);
  }
  Reach-IsLinked q_size (next {s = s} {t = t} k o e) =
      step-IsLinked o s t e (Reach-IsLinked q_size k)
