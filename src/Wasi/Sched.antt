-- ===== src/Wasi/Sched.antt =====
-- crates/wasi-common/src/sched.rs, sched/subscription.rs and sync/sched/unix.rs: a poll over
-- subscriptions. Files and the call of the system's poll are parameters; instants are
-- nanoseconds. The answers of the system are a list, each with the instant before it; a
-- poll that they do not end goes on waiting.
pub mod Results
use bls_runtime.Prelude.{
  ℕ, zero, suc, ◌+◌, ◌/◌, ◌-◌, ◌≡◌, Bool, true, false, Option, none, some, List, [], ◌∷◌, leb, ltb,
  if◌then◌else◌,
}
use bls_runtime.Wasi.Errno.{Error, errno, inval, badf, io, overflow, Result, ok, err}

-- The result of a read or write subscription: the bytes that are ready, and whether it hung up.
abbrev pub Status : Type 0
Status = Option (Result (ℕ × Bool))

pub data Subscription (F : Type 0) : Type 0 where
  read : F → Status → Subscription F
  write : F → Status → Subscription F
  monotonic_clock : ℕ → Subscription F

pub data SubscriptionResult : Type 0 where
  read_result : Result (ℕ × Bool) → SubscriptionResult
  write_result : Result (ℕ × Bool) → SubscriptionResult
  clock_result : SubscriptionResult

-- The events that the system reports for one descriptor.
pub record Revents : Type 0 where
  pub nval : Bool
  pub error : Bool
  pub hang_up : Bool

-- One call of the system's poll; `ready` comes with the count of descriptors that have events.
pub data Reply : Type 0 where
  ready : ℕ → List Revents → Reply
  interrupted : Reply
  failed : Error → Reply

abbrev pub Poll : Type 0 → Type 0
Poll F = List (Subscription F × ℕ)

-- `MonotonicClockSubscription::result` at an instant
unfoldable pub is_past : ℕ → ℕ → Bool
is_past now deadline = leb deadline now

abbrev pub earlier : ℕ → Option ℕ → Option ℕ
earlier d none = some d
earlier d (some e) = if leb d e then some d else some e

module _ {F : Type 0} where
  -- `SubscriptionResult::from_subscription`
  unfoldable pub from_subscription : ℕ → Subscription F → Option SubscriptionResult
  unfolding is_past
  from_subscription now (read f none) = none
  from_subscription now (read f (some r)) = some (read_result r)
  from_subscription now (write f none) = none
  from_subscription now (write f (some r)) = some (write_result r)
  from_subscription now (monotonic_clock deadline) =
      if is_past now deadline then some clock_result else none

  unfoldable pub results : ℕ → Poll F → List (SubscriptionResult × ℕ)
  unfolding from_subscription
  results now [] = []
  results now ((s, ud) ∷ subs) =
      let rest = results now subs in
      elim (from_subscription now s) [ none ↦ rest | some r ↦ (r, ud) ∷ rest ]

  unfoldable pub earliest_clock_deadline : Poll F → Option ℕ
  earliest_clock_deadline [] = none
  earliest_clock_deadline ((monotonic_clock d, ud) ∷ subs) =
      earlier d (earliest_clock_deadline subs)
  earliest_clock_deadline (_ ∷ subs) = earliest_clock_deadline subs

-- What `error` or `complete` stores, from the events of the descriptor.
unfoldable pub outcome : Revents → ℕ → Result (ℕ × Bool)
outcome r nbytes =
    if r.nval
    then err (errno badf)
    else if r.error
    then err (errno io)
    else if r.hang_up
    then ok (nbytes, true)
    else ok (nbytes, false)

abbrev pub at_least_one : ℕ → ℕ
at_least_one n = if leb n 1 then 1 else n

-- The end of a poll.
pub data Polled (F : Type 0) : Type 0 where
  waits panics : Polled F
  returns : Result (List (Subscription F × ℕ)) → Polled F

module _ {F : Type 0} (pollable : F → Bool) (num_ready_bytes : F → Result ℕ) where
  -- Every file has to have a descriptor that can be polled.
  unfoldable pub all_pollable : Poll F → Bool
  all_pollable [] = true
  all_pollable ((read f s, ud) ∷ subs) = if pollable f then all_pollable subs else false
  all_pollable ((write f s, ud) ∷ subs) = if pollable f then all_pollable subs else false
  all_pollable ((monotonic_clock d, ud) ∷ subs) = all_pollable subs

  -- The loop over the subscriptions and the descriptors that were polled, up to the shorter.
  unfoldable pub complete_all : List Revents → Poll F → Result (Poll F)
  unfolding outcome
  complete_all rs [] = ok []
  complete_all rs ((monotonic_clock d, ud) ∷ subs) = elim (complete_all rs subs) [
    | err e ↦ err e
    | ok p ↦ ok ((monotonic_clock d, ud) ∷ p)
  ]
  complete_all [] ((read f s, ud) ∷ subs) = ok ((read f s, ud) ∷ subs)
  complete_all [] ((write f s, ud) ∷ subs) = ok ((write f s, ud) ∷ subs)
  complete_all (r ∷ rs) ((read f s, ud) ∷ subs) =
      let rest = complete_all rs subs in
      elim (num_ready_bytes f) [
        | err e ↦ err e
        | ok n ↦ elim rest [
          | err e ↦ err e
          | ok p ↦ ok ((read f (some (outcome r (at_least_one n))), ud) ∷ p)
        ]
      ]
  complete_all (r ∷ rs) ((write f s, ud) ∷ subs) = elim (complete_all rs subs) [
    | err e ↦ err e
    | ok p ↦ ok ((write f (some (outcome r 0)), ud) ∷ p)
  ]

  -- The milliseconds up to the earliest deadline, rounded up, as a C `int`.
  unfoldable pub poll_timeout : ℕ → Poll F → Result ℕ
  poll_timeout now p = elim (earliest_clock_deadline p) [
    | none ↦ ok 2147483647
    | some d ↦
        let ms = (d - now) / 1000000 + 1 in
        if leb ms 2147483647 then ok ms else err (errno overflow)
  ]

  -- Behind the system's poll: the descriptors, or the clock that has to be past by then.
  unfoldable pub after_poll : ℕ → ℕ → List Revents → Poll F → Polled F
  unfolding complete_all is_past
  after_poll later zero rs p = elim (earliest_clock_deadline p) [
    | none ↦ panics
    | some d ↦ if is_past later d then returns (ok p) else panics
  ]
  after_poll later (suc n) rs p = returns (complete_all rs p)

  -- An interrupted call is made again, with a new timeout.
  unfoldable pub poll_loop : ℕ → List (ℕ × Reply) → Poll F → Polled F
  unfolding poll_timeout after_poll
  poll_loop later [] p = waits
  poll_loop later ((now, reply) ∷ replies) p =
      let again = poll_loop later replies p in
      elim (poll_timeout now p) [
        | err e ↦ returns (err e)
        | ok ms ↦ elim reply [
          | ready n rs ↦ after_poll later n rs p
          | interrupted ↦ again
          | failed e ↦ returns (err e)
        ]
      ]

  unfoldable pub poll_oneoff : ℕ → List (ℕ × Reply) → Poll F → Polled F
  unfolding all_pollable poll_loop
  poll_oneoff later replies [] = returns (ok [])
  poll_oneoff later replies (s ∷ subs) =
      if all_pollable (s ∷ subs)
      then poll_loop later replies (s ∷ subs)
      else returns (err (errno inval))
