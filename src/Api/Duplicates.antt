-- ===== src/Api/Duplicates.antt =====
-- Two calls of `PushWait` with one message id.
use p2pmq.Base.{ℕ, ◌≡◌, ◌≢◌, false, none, some, arith, string_key, nat_key}
use p2pmq.Base.Dict.{lookup-insert}
use p2pmq.Api.Outbox.{Message}
use p2pmq.Api.ValRouter.{Verdicts, added, ValRouter, new_val_router, push_wait, Reach}
use p2pmq.Api.Moves.{result}
use p2pmq.Api.Linked.{mid_of, IsLinked, Reach-IsLinked}
use p2pmq.Api.Orphans.{Reach-IsOrphan, reads}

module _ (v : Verdicts) where
  -- In a state reached from a new validation router, let a call of PushWait have no result yet and
  -- no receiver have read its channel. If another call comes with the same message id, then
  -- whatever steps follow, the first call has no result but ignore: no answer of a client reaches
  -- it.
  pub duplicate_unanswered :
      (q_size n : ℕ) (m : Message) {s t : ValRouter v}
      → Reach v (new_val_router v q_size) s
      → mid_of v n s ≡ some m.message_id
      → result v n s ≡ none
      → reads v n s.resolving ≡ false
      → Reach v (push_wait v m s) t
      → (res : v.Verdict) → res ≢ v.validation_ignore
      → result v n t ≢ some res
  unfolding push_wait
  duplicate_unanswered q_size n m {s = s} before mine open_call unread after res other_res got =
      other_res (
        (Reach-IsOrphan v n after (record {
          old = ground (arith, h.fresh n m.message_id);
          unlisted = λ mid e. ground (
            arith,
            h.linked mid n,
            h.fresh n m.message_id,
            lookup-insert m.message_id mid (some s.calls) s.results,
            string_key.same_iff m.message_id mid,
          );
          unread = unread;
          quiet = λ x e. ground (
            arith,
            h.fresh n m.message_id,
            lookup-insert s.calls n (record { message = m; phase = added }) s.waiters,
          );
        })).quiet
          res got)
    where
      h : IsLinked v s
      h = Reach-IsLinked v q_size before
