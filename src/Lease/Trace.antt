-- ===== src/Lease/Trace.antt =====
-- Interleavings of the lease store's clients: a schedule of calls and of the passing of time.
use blessing_ai.Prelude.{ℕ, ◌+◌, ◌-◌, String, List, [], ◌∷◌}
use blessing_ai.Lease
use blessing_ai.Lease.{Store}

pub record World : Type 0 where
  pub clock : ℕ
  pub store : Store

-- `acquire` reads the clock `lag` ticks before it has the lock; `renew` reads it twice, `delay`
-- ticks apart.
pub data Event : Type 0 where
  wait : ℕ → Event
  acquire : String → String → ℕ → ℕ → Event
  renew : String → String → ℕ → ℕ → ℕ → Event
  release : String → String → ℕ → Event
  lose : String → Event

unfoldable pub step : Event → World → World
step (wait d) w = record w { clock = w.clock + d }
step (Event.acquire scope owner ttl lag) w = record w {
  store = (Lease.acquire scope owner ttl (w.clock - lag) w.store).1;
}
step (Event.renew scope owner token ttl delay) w = record {
  clock = w.clock + delay;
  store = (Lease.renew scope owner token ttl w.clock (w.clock + delay) w.store).1;
}
step (Event.release scope owner token) w = record w {
  store = Lease.release scope owner token w.store;
}
step (Event.lose scope) w = record w { store = Lease.lose scope w.store }

unfoldable pub run : List Event → World → World
unfolding step
run [] w = w
run (e ∷ es) w = run es (step e w)
