-- ===== src/Agent/Cancellation/Wakeups.antt =====
-- The wake-ups of the token of crates/loreloom-agent/src/cancellation.rs, over all interleavings.
use loreloom.Prelude.{
  ℕ, ◌≡◌, ◌≢◌, refl, true, false, ◌||◌, none, some, List, [], ◌∷◌, ◌++◌, arith, ◌==◌, ==_iff, inl,
  inr, Bool-cases,
}
use loreloom.Agent.Cancellation.{
  wants_lock, holds_lock, rechecked, pending, ready, before, swapped, draining, finished, task,
  canceller, Token, has, armed, poll_read, poll_lock, poll_recheck, poll_push, cancel_swap,
  cancel_lock, cancel_wake, cancel_unlock, Step, first_poll, poll_again, lock_taken, flag_reread,
  waker_pushed, flag_set, cancel_locked, waker_woken, cancel_unlocked, Reachable, start, more,
}

-- A task that is inside the mutex holds it, and has reread the flag before the canceller entered; a
-- task that waits is listed or woken; the list is empty when the canceller is done.
pub record IsFair (s : Token) : Type 0 where
  pub unset : s.cancel ≡ before → s.cancelled ≡ false
  pub was_set : s.cancel ≢ before → s.cancelled ≡ true
  pub draining_holds : s.cancel ≡ draining → s.lock ≡ some canceller
  pub holds : (i : ℕ) → s.polls i ≡ holds_lock → s.lock ≡ some (task i)
  pub reads : (i : ℕ) → s.polls i ≡ rechecked → s.lock ≡ some (task i)
  pub early : (i : ℕ) → s.polls i ≡ rechecked → s.cancel ≢ finished
  pub waits : (i : ℕ) → s.polls i ≡ pending → (has i s.waiters || has i s.woken) ≡ true
  pub emptied : s.cancel ≡ finished → s.waiters ≡ []
  pub stops : (i : ℕ) → s.polls i ≡ ready → s.cancelled ≡ true

has-append : (i j : ℕ) (js : List ℕ) → has i (js ++ j ∷ []) ≡ (has i js || j == i)
has-append i j [] = ground arith
has-append i j (k ∷ ks) = ground (arith, has-append i j ks)

armed-IsFair : IsFair armed
armed-IsFair = ground arith

poll_read-IsFair : (i : ℕ) (s : Token) → IsFair s → IsFair (poll_read i s)
unfolding poll_read
poll_read-IsFair i s f = record {
  unset = f.unset;
  was_set = f.was_set;
  draining_holds = f.draining_holds;
  holds = λ j h. ground (arith, f.holds j);
  reads = λ j h. ground (arith, f.reads j);
  early = λ j h. ground (arith, f.early j);
  waits = λ j h. ground (arith, f.waits j);
  emptied = f.emptied;
  stops = λ j h. ground (arith, f.stops j);
}

poll_lock-IsFair :
    (i : ℕ) (s : Token) → s.polls i ≡ wants_lock → s.lock ≡ none → IsFair s → IsFair (poll_lock i s)
unfolding poll_lock
poll_lock-IsFair i s p free f = record {
  unset = f.unset;
  was_set = f.was_set;
  draining_holds = λ h. ground (arith, f.draining_holds);
  holds = λ j h. ground (arith, f.holds j, ==_iff i j);
  reads = λ j h. ground (arith, f.reads j);
  early = λ j h. ground (arith, f.early j);
  waits = λ j h. ground (arith, f.waits j);
  emptied = f.emptied;
  stops = λ j h. ground (arith, f.stops j);
}

-- While the flag is unset the canceller is not done.
unset-ne : (s : Token) → IsFair s → s.cancelled ≡ false → s.cancel ≢ finished
unset-ne s f u e = absurd (cc (f.was_set (rw e λ g. cc g), u))

poll_recheck-IsFair :
    (i : ℕ) (s : Token) → s.polls i ≡ holds_lock → IsFair s → IsFair (poll_recheck i s)
unfolding poll_recheck
poll_recheck-IsFair i s p f =
    let own = f.holds i p in
    elim (Bool-cases s.cancelled) [
      | inl c ↦
          rw (c, poll_recheck)
            (record {
              unset = λ h. ground (arith, f.unset);
              was_set = λ h. refl;
              draining_holds = λ h. ground (arith, f.draining_holds);
              holds = λ j h. ground (arith, f.holds j, ==_iff i j);
              reads = λ j h. ground (arith, f.reads j, ==_iff i j);
              early = λ j h. ground (arith, f.early j);
              waits = λ j h. ground (arith, f.waits j);
              emptied = f.emptied;
              stops = λ j h. refl;
            })
      | inr c ↦
          rw (c, poll_recheck)
            (record {
              unset = λ h. refl;
              was_set = λ h. absurd (cc (f.was_set h, c));
              draining_holds = f.draining_holds;
              holds = λ j h. ground (arith, f.holds j, ==_iff i j);
              reads = λ j h. ground (arith, f.reads j, ==_iff i j);
              early = λ j h. unset-ne s f c;
              waits = λ j h. ground (arith, f.waits j);
              emptied = f.emptied;
              stops = λ j h. ground (arith, f.stops j);
            })
    ]

poll_push-IsFair : (i : ℕ) (s : Token) → s.polls i ≡ rechecked → IsFair s → IsFair (poll_push i s)
unfolding poll_push
poll_push-IsFair i s p f =
    let own = f.reads i p in
    let late = f.early i p in
    record {
      unset = f.unset;
      was_set = f.was_set;
      draining_holds = λ h. ground (arith, f.draining_holds);
      holds = λ j h. ground (arith, f.holds j, ==_iff i j);
      reads = λ j h. ground (arith, f.reads j, ==_iff i j);
      early = λ j h. ground (arith, f.early j);
      waits = λ j h. ground (arith, f.waits j, has-append j i s.waiters, ==_iff i j);
      emptied = λ h. absurd (late h);
      stops = λ j h. ground (arith, f.stops j);
    }

cancel_swap-IsFair : (s : Token) → s.cancel ≡ before → IsFair s → IsFair (cancel_swap s)
unfolding cancel_swap
cancel_swap-IsFair s b f = record {
  unset = λ h. cc h;
  was_set = λ h. refl;
  draining_holds = λ h. cc h;
  holds = f.holds;
  reads = f.reads;
  early = λ j h e. cc e;
  waits = f.waits;
  emptied = λ h. cc h;
  stops = λ j h. refl;
}

cancel_lock-IsFair :
    (s : Token) → s.cancel ≡ swapped → s.lock ≡ none → IsFair s → IsFair (cancel_lock s)
unfolding cancel_lock
cancel_lock-IsFair s b free f = record {
  unset = λ h. cc h;
  was_set = λ h. f.was_set (rw b λ e. cc e);
  draining_holds = λ h. refl;
  holds = λ j h. absurd (cc (f.holds j h, free));
  reads = λ j h. absurd (cc (f.reads j h, free));
  early = λ j h e. cc e;
  waits = f.waits;
  emptied = λ h. cc h;
  stops = f.stops;
}

cancel_wake-IsFair :
    (i : ℕ) (rest : List ℕ) (s : Token)
    → s.cancel ≡ draining
    → s.waiters ≡ i ∷ rest
    → IsFair s
    → IsFair (cancel_wake i rest s)
unfolding cancel_wake
cancel_wake-IsFair i rest s d w f = record {
  unset = f.unset;
  was_set = f.was_set;
  draining_holds = f.draining_holds;
  holds = f.holds;
  reads = f.reads;
  early = f.early;
  waits = λ j h. ground (arith, rw w at (f.waits j h));
  emptied = λ h. absurd (cc (d, h));
  stops = f.stops;
}

cancel_unlock-IsFair :
    (s : Token) → s.cancel ≡ draining → s.waiters ≡ [] → IsFair s → IsFair (cancel_unlock s)
unfolding cancel_unlock
cancel_unlock-IsFair s d w f =
    let own = f.draining_holds d in
    record {
      unset = λ h. cc h;
      was_set = λ h. f.was_set (rw d λ e. cc e);
      draining_holds = λ h. cc h;
      holds = λ j h. absurd (cc (f.holds j h, own));
      reads = λ j h. absurd (cc (f.reads j h, own));
      early = λ j h. absurd (cc (f.reads j h, own));
      waits = f.waits;
      emptied = λ h. w;
      stops = f.stops;
    }

Step-IsFair : {s t : Token} → Step s t → IsFair s → IsFair t
Step-IsFair {s} (first_poll i p) f = poll_read-IsFair i s f
Step-IsFair {s} (poll_again i p) f = poll_read-IsFair i s f
Step-IsFair {s} (lock_taken i p free) f = poll_lock-IsFair i s p free f
Step-IsFair {s} (flag_reread i p) f = poll_recheck-IsFair i s p f
Step-IsFair {s} (waker_pushed i p) f = poll_push-IsFair i s p f
Step-IsFair {s} (flag_set b) f = cancel_swap-IsFair s b f
Step-IsFair {s} (cancel_locked b free) f = cancel_lock-IsFair s b free f
Step-IsFair {s} (waker_woken i rest d w) f = cancel_wake-IsFair i rest s d w f
Step-IsFair {s} (cancel_unlocked d w) f = cancel_unlock-IsFair s d w f

pub Reachable-IsFair : (s : Token) → Reachable s → IsFair s
Reachable-IsFair s start = armed-IsFair
Reachable-IsFair s (more r step) = Step-IsFair step (Reachable-IsFair _ r)

-- In every interleaving of tasks that poll the token with the thread that cancels it, once `cancel`
-- is done, every task that is left waiting has been woken: no wake-up is lost.
pub Reachable-woken :
    (s : Token) (i : ℕ)
    → Reachable s
    → s.cancel ≡ finished
    → s.polls i ≡ pending
    → has i s.woken ≡ true
Reachable-woken s i r done p =
    let f = Reachable-IsFair s r in ground (arith, rw (f.emptied done) at (f.waits i p))

-- In every interleaving, a task whose poll has returned ready finds the flag set.
pub Reachable-cancelled : (s : Token) (i : ℕ) → Reachable s → s.polls i ≡ ready → s.cancelled ≡ true
Reachable-cancelled s i r p = (Reachable-IsFair s r).stops i p
