-- ===== src/Api/Orphans.antt =====
-- Two calls of `PushWait` with one message id.
use mathlib.Core.Path.{subst}
use p2pmq.Base.{
  ℕ, zero, suc, ◌<◌, ◌≡◌, ◌≢◌, String, Bool, false, List, [], ◌∷◌, Option, none, some, eqb, ◌||◌,
  Option-cases, inl, inr, arith, string_key, nat_key,
}
use p2pmq.Base.Dict.{lookup, lookup-insert}
use p2pmq.Router.Queue.{pick}
use p2pmq.Proto.{ValidationResult}
use p2pmq.Api.Outbox.{Message, Outbox}
use p2pmq.Api.ValRouter.{
  Verdicts, added, leaving, ValRouter, push_wait, cancel, find, resolve_to, resolve, stream, Op,
  pushing, enqueuing, awaiting, expiring, leaving_call, finding, resolving_at, taking, listening,
  hanging_up, sending_at, step, Reach, here, next,
}
use p2pmq.Api.Moves.{result, IsMove, enqueue-IsMove, await-IsMove, expire-IsMove, leave-IsMove}

module _ (v : Verdicts) where
  -- Whether a receiver has read the channel of a call.
  abbrev pub is_to : ℕ → Option ℕ → Bool
  is_to n none = false
  is_to n (some k) = eqb k n

  abbrev pub reads : ℕ → List (Option ℕ × v.Verdict) → Bool
  reads n [] = false
  reads n ((c, res) ∷ l) = is_to n c || reads n l

  -- No channel of the map and no receiver leads to the call, and it has no result but ignore.
  pub record IsOrphan (n : ℕ) (r : ValRouter v) : Type 0 where
    pub old : n < r.calls
    pub unlisted : (mid : String) → lookup mid r.results ≢ some (some n)
    pub unread : reads n r.resolving ≡ false
    pub quiet : (res : v.Verdict) → result v n r ≡ some res → res ≡ v.validation_ignore

  move-IsOrphan : (n k : ℕ) (s t : ValRouter v) → IsMove v k s t → IsOrphan n s → IsOrphan n t
  unfolding cancel
  move-IsOrphan n k s t m h = record {
    old = rw m.same_calls h.old;
    unlisted = λ mid e. elim m.mapped [
      | inl kept ↦ h.unlisted mid (rw kept at e)
      | inr cut ↦
          ground
            (arith, h.unlisted mid, lookup-insert m.waiter.message.message_id mid none s.results)
    ];
    unread = rw m.same_resolving h.unread;
    quiet = λ res g. ground (
      arith,
      h.quiet res,
      m.allowed res,
      m.found,
      m.moved,
      lookup-insert k n (record m.waiter { phase = m.phase }) s.waiters,
    );
  }

  push-IsOrphan :
      (n : ℕ) (m : Message) (s : ValRouter v) → IsOrphan n s → IsOrphan n (push_wait v m s)
  unfolding push_wait
  push-IsOrphan n m s h = record {
    old = omega (arith, h.old);
    unlisted = λ mid e.
        ground
          (arith, h.old, h.unlisted mid, lookup-insert m.message_id mid (some s.calls) s.results);
    unread = h.unread;
    quiet = λ res g. ground (
      arith,
      h.old,
      h.quiet res,
      lookup-insert s.calls n (record { message = m; phase = added }) s.waiters,
    );
  }

  find-IsOrphan :
      (n : ℕ) (mid : String) (a : ValidationResult) (s : ValRouter v)
      → IsOrphan n s
      → IsOrphan n (find v mid a s)
  unfolding find
  find-IsOrphan n mid a s h = record {
    old = ground (arith, h.old);
    unlisted = λ j e. ground (arith, h.unlisted j);
    unread = ground (arith, h.unread, h.unlisted mid);
    quiet = λ res g. ground (arith, h.quiet res);
  }

  pick-reads :
      (n i : ℕ) (l rest : List (Option ℕ × v.Verdict)) (x : Option ℕ × v.Verdict)
      → pick i l ≡ some (x, rest)
      → reads n l ≡ (is_to n x.0 || reads n rest)
  unfolding pick
  pick-reads n i [] rest x e = absurd (ground arith)
  pick-reads n zero (y ∷ ys) rest x e = ground arith
  pick-reads n (suc i) (y ∷ ys) rest x e = elim (Option-cases (pick i ys)) [
    | inl z ↦ absurd (ground arith)
    | inr ((y', ys'), z) ↦ ground (arith, pick-reads n i ys ys' y' z)
  ]

  resolve-IsOrphan :
      (n i : ℕ) (s t : ValRouter v) → resolve v i s ≡ some t → IsOrphan n s → IsOrphan n t
  unfolding resolve resolve_to
  resolve-IsOrphan n i s t e h = elim (Option-cases (pick i s.resolving)) [
    | inl z ↦ absurd (ground arith)
    | inr (((none, res), rest), z) ↦ record {
      old = ground (arith, h.old);
      unlisted = λ j f. ground (arith, h.unlisted j);
      unread = ground (arith, h.unread, pick-reads n i s.resolving rest (none, res) z);
      quiet = λ x g. ground (arith, h.quiet x);
    }
    | inr (((some k, res), rest), z) ↦ elim (Option-cases (lookup k s.waiters)) [
      | inl f ↦ record {
        old = ground (arith, h.old);
        unlisted = λ j g. ground (arith, h.unlisted j);
        unread = ground (arith, h.unread, pick-reads n i s.resolving rest (some k, res) z);
        quiet = λ x g. ground (arith, h.quiet x);
      }
      | inr (w, f) ↦ record {
        old = ground (arith, h.old);
        unlisted = λ j g. ground (arith, h.unlisted j);
        unread = ground (arith, h.unread, pick-reads n i s.resolving rest (some k, res) z);
        quiet = λ x g. ground (
          arith,
          h.quiet x,
          h.unread,
          pick-reads n i s.resolving rest (some k, res) z,
          lookup-insert k n (record w { phase = leaving res }) s.waiters,
        );
      }
    ]
  ]

  stream-IsOrphan :
      (n : ℕ) (o : Option Outbox) (s t : ValRouter v)
      → stream v o s ≡ some t
      → IsOrphan n s
      → IsOrphan n t
  unfolding stream
  stream-IsOrphan n none s t e h = absurd (ground arith)
  stream-IsOrphan n (some o) s t e h = record {
    old = ground (arith, h.old);
    unlisted = λ j f. ground (arith, h.unlisted j);
    unread = ground (arith, h.unread);
    quiet = λ res g. ground (arith, h.quiet res);
  }

  step-IsOrphan :
      (n : ℕ) (o : Op v) (s t : ValRouter v) → step v o s ≡ some t → IsOrphan n s → IsOrphan n t
  unfolding step
  step-IsOrphan n (pushing m) s t e h = subst (IsOrphan n) (ground arith) (push-IsOrphan n m s h)
  step-IsOrphan n (enqueuing k) s t e h = move-IsOrphan n k s t (enqueue-IsMove v k s t e) h
  step-IsOrphan n (awaiting k) s t e h = move-IsOrphan n k s t (await-IsMove v k s t e) h
  step-IsOrphan n (expiring k) s t e h = move-IsOrphan n k s t (expire-IsMove v k s t e) h
  step-IsOrphan n (leaving_call k) s t e h = move-IsOrphan n k s t (leave-IsMove v k s t e) h
  step-IsOrphan n (finding mid a) s t e h =
      subst (IsOrphan n) (ground arith) (find-IsOrphan n mid a s h)
  step-IsOrphan n (resolving_at i) s t e h = resolve-IsOrphan n i s t e h
  step-IsOrphan n taking s t e h = stream-IsOrphan n _ s t e h
  step-IsOrphan n listening s t e h = stream-IsOrphan n _ s t e h
  step-IsOrphan n hanging_up s t e h = stream-IsOrphan n _ s t e h
  step-IsOrphan n (sending_at i works) s t e h = stream-IsOrphan n _ s t e h

  pub Reach-IsOrphan : (n : ℕ) {s t : ValRouter v} → Reach v s t → IsOrphan n s → IsOrphan n t
  Reach-IsOrphan n here h = h
  Reach-IsOrphan n (next {s = s} {t = t} k o e) h = step-IsOrphan n o s t e (Reach-IsOrphan n k h)
