-- ===== src/Wasi/Sched/Results.antt =====
-- Which subscriptions a poll reports.
use bls_runtime.Prelude.{
  ℕ, suc, ◌+◌, ◌≡◌, refl, ap, Bool, true, some, List, [], ◌∷◌, arith, leb, if◌then◌else◌, map,
  length, Bool-cases, inl, inr,
}
use bls_runtime.Wasi.Errno.{Result, ok, Result-cases, ok-injective}
use bls_runtime.Wasi.Sched.{
  Subscription, read, write, monotonic_clock, SubscriptionResult, Revents, Reply, ready, Poll,
  is_past, from_subscription, results, returns, complete_all, after_poll, poll_timeout, poll_loop,
  poll_oneoff, all_pollable, outcome, at_least_one,
}

abbrev pub user_data : List (SubscriptionResult × ℕ) → List ℕ
user_data = map (λ (r : SubscriptionResult × ℕ). r.1)

module _ {F : Type 0} where
  -- The number of read and write subscriptions.
  unfoldable pub descriptors : Poll F → ℕ
  descriptors [] = 0
  descriptors ((monotonic_clock d, ud) ∷ subs) = descriptors subs
  descriptors (_ ∷ subs) = descriptors subs + 1

  -- The user data of the subscriptions on descriptors and on clocks that are past, in order.
  unfoldable pub reported : ℕ → Poll F → List ℕ
  reported now [] = []
  reported now ((monotonic_clock d, ud) ∷ subs) =
      if leb d now then ud ∷ reported now subs else reported now subs
  reported now ((read f s, ud) ∷ subs) = ud ∷ reported now subs
  reported now ((write f s, ud) ∷ subs) = ud ∷ reported now subs

  module _ (pollable : F → Bool) (num_ready_bytes : F → Result ℕ) where
    results-complete_all :
        (now : ℕ) (rs : List Revents) (p q : Poll F)
        → length rs ≡ descriptors p
        → complete_all pollable num_ready_bytes rs p ≡ ok q
        → user_data (results now q) ≡ reported now p
    unfolding complete_all results from_subscription descriptors reported
    results-complete_all now rs [] q n h = let e : [] ≡ q = ok-injective _ _ h in rw (← e) refl
    results-complete_all now rs ((monotonic_clock d, ud) ∷ subs) q n h =
        elim (Result-cases (complete_all pollable num_ready_bytes rs subs)) [
          | inr (e, bad) ↦ absurd (cc (rw (bad, complete_all) at h))
          | inl (p, good) ↦
              let same : (monotonic_clock d, ud) ∷ p ≡ q =
                ok-injective _ _ (rw (good, complete_all) at h) in
              let rest = results-complete_all now rs subs p n good in
              elim (Bool-cases (leb d now)) [
                | inl past ↦
                    rw (← same, past, results, from_subscription, is_past) (ap (◌∷◌ ud) rest)
                | inr later ↦ rw (← same, later, results, from_subscription, is_past) rest
              ]
        ]
    results-complete_all now [] ((read f s, ud) ∷ subs) q n h = absurd (omega arith)
    results-complete_all now [] ((write f s, ud) ∷ subs) q n h = absurd (omega arith)
    results-complete_all now (r ∷ rs) ((read f s, ud) ∷ subs) q n h =
        elim (Result-cases (num_ready_bytes f)) [
          | inr (e, bad) ↦ absurd (cc (rw (bad, complete_all) at h))
          | inl (k, count) ↦ elim (Result-cases (complete_all pollable num_ready_bytes rs subs)) [
            | inr (e, bad) ↦ absurd (cc (rw (count, bad, complete_all) at h))
            | inl (p, good) ↦
                let same : (read f (some (outcome r (at_least_one k))), ud) ∷ p ≡ q =
                  ok-injective _ _ (rw (count, good, complete_all) at h) in
                rw (← same) (ap (◌∷◌ ud) (results-complete_all now rs subs p (omega arith) good))
          ]
        ]
    results-complete_all now (r ∷ rs) ((write f s, ud) ∷ subs) q n h =
        elim (Result-cases (complete_all pollable num_ready_bytes rs subs)) [
          | inr (e, bad) ↦ absurd (cc (rw (bad, complete_all) at h))
          | inl (p, good) ↦
              let same : (write f (some (outcome r 0)), ud) ∷ p ≡ q =
                ok-injective _ _ (rw (good, complete_all) at h) in
              rw (← same) (ap (◌∷◌ ud) (results-complete_all now rs subs p (omega arith) good))
        ]

    complete_all-ok :
        ((f : F) → (k : ℕ) × (num_ready_bytes f ≡ ok k))
        → (rs : List Revents) (p : Poll F)
        → (q : Poll F) × (complete_all pollable num_ready_bytes rs p ≡ ok q)
    unfolding complete_all
    complete_all-ok counts rs [] = ([], refl)
    complete_all-ok counts rs ((monotonic_clock d, ud) ∷ subs) =
        let (q, e) = complete_all-ok counts rs subs in
        ((monotonic_clock d, ud) ∷ q, rw (e, complete_all) refl)
    complete_all-ok counts [] ((read f s, ud) ∷ subs) = (_, refl)
    complete_all-ok counts [] ((write f s, ud) ∷ subs) = (_, refl)
    complete_all-ok counts (r ∷ rs) ((read f s, ud) ∷ subs) =
        let (k, count) = counts f in
        let (q, e) = complete_all-ok counts rs subs in
        ((read f (some (outcome r (at_least_one k))), ud) ∷ q, rw (count, e, complete_all) refl)
    complete_all-ok counts (r ∷ rs) ((write f s, ud) ∷ subs) =
        let (q, e) = complete_all-ok counts rs subs in
        ((write f (some (outcome r 0)), ud) ∷ q, rw (e, complete_all) refl)

    -- Where every file can be polled and counts its bytes, and the timeout fits a C `int`, a poll
    -- that the system answers with at least one ready descriptor returns. It then has an event
    -- for every read and write subscription, whether its descriptor is ready or not, and for
    -- every clock that is past, in the order of the subscriptions.
    pub poll_oneoff-reported :
        ((f : F) → (k : ℕ) × (num_ready_bytes f ≡ ok k))
        → (later t n ms : ℕ) (rs : List Revents) (replies : List (ℕ × Reply))
        → (s : Subscription F × ℕ) (subs : Poll F)
        → all_pollable pollable num_ready_bytes (s ∷ subs) ≡ true
        → poll_timeout pollable num_ready_bytes t (s ∷ subs) ≡ ok ms
        → length rs ≡ descriptors (s ∷ subs)
        → (q : Poll F) × (poll_oneoff pollable num_ready_bytes later
              ((t, ready (n + 1) rs) ∷ replies)
              (s ∷ subs)
            ≡ returns (ok q))
          × ((now : ℕ) → user_data (results now q) ≡ reported now (s ∷ subs))
    unfolding poll_oneoff poll_loop after_poll
    poll_oneoff-reported counts later t n ms rs replies s subs can fits answered =
        let (q, e) = complete_all-ok counts rs (s ∷ subs) in
        let some_ready : n + 1 ≡ suc n = omega arith in
        (
          q,
          rw (can, fits, some_ready, e, poll_oneoff, poll_loop, after_poll) refl,
          λ now. results-complete_all now rs (s ∷ subs) q answered e,
        )
