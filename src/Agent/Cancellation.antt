-- ===== src/Agent/Cancellation.antt =====
-- crates/loreloom-agent/src/cancellation.rs: the token that stops a turn, as the interleavings of the
-- tasks that poll it and of the threads that cancel it. A step is one atomic access: of the flag, of
-- the mutex, or of the list of waiters under the mutex. A task is its number, and so is its waker.
-- `reset` is called between turns, when no task polls, and starts a new run from `armed`.
pub mod Wakeups
use loreloom.Prelude.{
  ℕ, ◌≡◌, Bool, true, false, ◌||◌, Option, none, some, List, [], ◌∷◌, ◌++◌, ◌==◌, if◌then◌else◌,
}

-- Where a task is in `Cancelled::poll`: it has read the flag as unset and wants the mutex; it holds the
-- mutex; it has read the flag as unset again under the mutex; it has returned.
pub data Poll : Type 0 where
  idle wants_lock holds_lock rechecked pending ready : Poll

-- Where the thread that set the flag is in `cancel`.
pub data Cancel : Type 0 where
  before swapped draining finished : Cancel

pub data Holder : Type 0 where
  task : ℕ → Holder
  canceller : Holder

pub record Token : Type 0 where
  pub cancelled : Bool
  pub lock : Option Holder
  pub waiters : List ℕ
  pub woken : List ℕ
  pub polls : ℕ → Poll
  pub cancel : Cancel

abbrev pub has : ℕ → List ℕ → Bool
has i [] = false
has i (j ∷ js) = j == i || has i js

abbrev pub at : ℕ → Poll → (ℕ → Poll) → ℕ → Poll
at i p polls j = if i == j then p else polls j

-- `CancellationToken::new`, and the token after `reset`
abbrev pub armed : Token
armed = record {
  cancelled = false;
  lock = none;
  waiters = [];
  woken = [];
  polls = λ _. idle;
  cancel = before;
}

unfoldable pub poll_read : ℕ → Token → Token
poll_read i s = record s { polls = at i (if s.cancelled then ready else wants_lock) s.polls }

unfoldable pub poll_lock : ℕ → Token → Token
poll_lock i s = record s { lock = some (task i); polls = at i holds_lock s.polls }

-- The guard is dropped where the flag is set.
unfoldable pub poll_recheck : ℕ → Token → Token
poll_recheck i s =
    if s.cancelled
    then record s { lock = none; polls = at i ready s.polls }
    else record s { polls = at i rechecked s.polls }

unfoldable pub poll_push : ℕ → Token → Token
poll_push i s = record s {
  lock = none;
  waiters = if has i s.waiters then s.waiters else s.waiters ++ i ∷ [];
  polls = at i pending s.polls;
}

unfoldable pub cancel_swap : Token → Token
cancel_swap s = record s { cancelled = true; cancel = swapped }

unfoldable pub cancel_lock : Token → Token
cancel_lock s = record s { lock = some canceller; cancel = draining }

unfoldable pub cancel_wake : ℕ → List ℕ → Token → Token
cancel_wake i rest s = record s { waiters = rest; woken = i ∷ s.woken }

unfoldable pub cancel_unlock : Token → Token
cancel_unlock s = record s { lock = none; cancel = finished }

-- One step of some task or thread. A thread whose swap finds the flag set changes nothing.
pub data Step : Token → Token → Type 0 where
  first_poll : {s : Token} (i : ℕ) → s.polls i ≡ idle → Step s (poll_read i s)
  poll_again : {s : Token} (i : ℕ) → s.polls i ≡ pending → Step s (poll_read i s)
  lock_taken : {s : Token} (i : ℕ) → s.polls i ≡ wants_lock → s.lock ≡ none → Step s (poll_lock i s)
  flag_reread : {s : Token} (i : ℕ) → s.polls i ≡ holds_lock → Step s (poll_recheck i s)
  waker_pushed : {s : Token} (i : ℕ) → s.polls i ≡ rechecked → Step s (poll_push i s)
  flag_set : {s : Token} → s.cancel ≡ before → Step s (cancel_swap s)
  cancel_locked : {s : Token} → s.cancel ≡ swapped → s.lock ≡ none → Step s (cancel_lock s)
  waker_woken :
      {s : Token} (i : ℕ) (rest : List ℕ)
      → s.cancel ≡ draining
      → s.waiters ≡ i ∷ rest
      → Step s (cancel_wake i rest s)
  cancel_unlocked : {s : Token} → s.cancel ≡ draining → s.waiters ≡ [] → Step s (cancel_unlock s)

pub data Reachable : Token → Type 0 where
  start : Reachable armed
  more : {s t : Token} → Reachable s → Step s t → Reachable t
