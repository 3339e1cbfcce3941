-- ===== src/Health/Start/Ends.antt =====
-- That the closure of `startHealth` returns.
use nixos_fleet.Base.{
  ℕ, suc, ◌+◌, ◌<◌, ◌≤◌, true, List, [], ◌∷◌, ◌++◌, ◌≡◌, ◌⊎◌, inl, inr, refl, ap, if◌then◌else◌,
  arith, Bytes, length, length-append,
}
use native.Mathlib.Decide.{dec_lt}
use nixos_fleet.Base.Float.{Float64}
use nixos_fleet.Health.{HealthSummary, Hit}
use nixos_fleet.Health.Start.{
  Worker, starting, unlocking, finishing, finished, polling, leaving, storing, Waiter, uncalled,
  stopping, joining, locking, reading, releasing, returned, Shared, Move, Step, move, first_hit,
  tick, done, worker_lock, store, worker_unlock, finish, cancel, call, stop, join, lock, read,
  unlock, Reach, next,
}
use nixos_fleet.Health.Start.Joined.{Inv, Reach-Inv, worker_holds}

-- What is left to do, ticks aside.
abbrev pub worker_left {ℓ} : {F : Type ℓ} → Worker F → ℕ
worker_left starting = 6
worker_left (polling p) = 5
worker_left (leaving p) = 4
worker_left (storing p) = 3
worker_left unlocking = 2
worker_left finishing = 1
worker_left finished = 0

abbrev pub waiter_left {ℓ} : {F : Type ℓ} → Waiter F → ℕ
waiter_left uncalled = 6
waiter_left stopping = 5
waiter_left joining = 4
waiter_left locking = 3
waiter_left reading = 2
waiter_left (releasing p) = 1
waiter_left (returned p) = 0

abbrev pub left {ℓ} : {F : Type ℓ} → Shared F → ℕ
left s = worker_left s.worker + waiter_left s.waiter + (if s.cancelled then 0 else 1)

module _ {ℓ} {F : Type ℓ} ⦃f : Float64 F⦄ (url : Bytes) where
  -- `n` steps from `s` to `t`, with the requests till `s` and till `t`.
  pub data Trace (log : List Hit) (s : Shared F) : ℕ → List Hit → Shared F → Type ℓ where
    stay : Trace log s 0 log s
    step :
        {n : ℕ} {log' made log'' : List Hit} {t u : Shared F}
        → Trace log s n log' t
        → Step url t made u
        → log'' ≡ log' ++ made
        → Trace log s (suc n) log'' u

  -- A step brings the end nearer, by more than the requests that it makes.
  abbrev Nearer : List Hit → Shared F → Shared F → Type 0
  Nearer made s t = (left t < left s + length made) × (waiter_left t.waiter ≤ waiter_left s.waiter)

  Move-Nearer : {made : List Hit} {s t : Shared F} → Move url s made t → Nearer made s t
  Move-Nearer (first_hit h e m r) = ground arith
  Move-Nearer (tick p h e m r) = ground arith
  Move-Nearer (done p e c m r) = ground arith
  Move-Nearer (worker_lock p e l m r) = ground arith
  Move-Nearer (store p e m r) = ground arith
  Move-Nearer (worker_unlock e m r) = ground arith
  Move-Nearer (finish e m r) = ground arith
  Move-Nearer (stop e m r) = ground arith
  Move-Nearer (join e p m r) = ground arith
  Move-Nearer (lock e l m r) = ground arith
  Move-Nearer (read e m r) = ground arith
  Move-Nearer (unlock p e m r) = ground arith

  Step-Nearer : {made : List Hit} {s t : Shared F} → Step url s made t → Nearer made s t
  Step-Nearer (move m) = Move-Nearer m
  Step-Nearer (cancel e m r) = ground arith
  Step-Nearer (call e m r) = ground arith

  Trace-Nearer :
      {log : List Hit} {s : Shared F} {n : ℕ} {log' : List Hit} {t : Shared F}
      → Trace log s n log' t
      → (n + left t + length log ≤ left s + length log')
        × (waiter_left t.waiter ≤ waiter_left s.waiter)
  Trace-Nearer stay = omega arith
  Trace-Nearer (step {log'} {made} r st e) =
      omega (arith, Trace-Nearer r, Step-Nearer st, ap length e, length-append log' made)

  pub Trace-Reach :
      {log : List Hit} {s : Shared F} {n : ℕ} {log' : List Hit} {t : Shared F}
      → Reach url log s
      → Trace log s n log' t
      → Reach url log' t
  Trace-Reach reach stay = reach
  Trace-Reach reach (step r st e) = next (Trace-Reach reach r) st e

  -- A step of the program that brings the end nearer.
  abbrev pub Goes : Shared F → Type ℓ
  Goes t = (made : List Hit) × (u : Shared F) × Move url t made u × (left u < left t)

  -- The goroutine always can, once the context is over; its request is answered or times out.
  worker-Goes :
      (t : Shared F) (w : Worker F) (h : Hit)
      → t.worker ≡ w
      → t.cancelled ≡ true
      → worker_holds w ≡ (if t.locked then 1 else 0)
      → 0 < worker_left w
      → Goes t
  worker-Goes t starting h e c l some = (h ∷ [], _, first_hit h e refl refl, ground arith)
  worker-Goes t (polling p) h e c l some = ([], _, done p e c refl refl, ground arith)
  worker-Goes t (leaving p) h e c l some =
      ([], _, worker_lock p e (ground arith) refl refl, ground arith)
  worker-Goes t (storing p) h e c l some = ([], _, store p e refl refl, ground arith)
  worker-Goes t unlocking h e c l some = ([], _, worker_unlock e refl refl, ground arith)
  worker-Goes t finishing h e c l some = ([], _, finish e refl refl, ground arith)
  worker-Goes t finished h e c l some = absurd (omega arith)

  Inv-Goes :
      {log : List Hit} {t : Shared F} (w : Waiter F) (h : Hit)
      → Inv url log t
      → t.waiter ≡ w
      → waiter_left w < 6
      → Goes t ⊎ (r : HealthSummary F) × (t.waiter ≡ returned r)
  Inv-Goes uncalled h inv e called = absurd (omega arith)
  Inv-Goes {t} stopping h inv e called = inl ([], _, stop e refl refl, ground arith)
  Inv-Goes {t} joining h inv e called = elim (dec_lt 0 t.pending) [
    | yes busy ↦ inl (worker-Goes t t.worker h refl (ground arith) (ground arith) (ground arith))
    | no over ↦ inl ([], _, join e (omega arith) refl refl, ground arith)
  ]
  Inv-Goes {t} locking h inv e called = inl ([], _, lock e (ground arith) refl refl, ground arith)
  Inv-Goes {t} reading h inv e called = inl ([], _, read e refl refl, ground arith)
  Inv-Goes {t} (releasing p) h inv e called = inl ([], _, unlock p e refl refl, ground arith)
  Inv-Goes (returned p) h inv e called = inr (p, e)

  -- The closure ends. In whatever order the steps come from its call on, there are at most twelve
  -- that make no request; and until it has returned some step of the program brings it nearer, one
  -- that waits for no call from outside and no tick: nobody waits for a lock that is not released.
  pub wait-returns :
      {log log' : List Hit} {s t : Shared F} {n : ℕ} (h : Hit)
      → Reach url log s
      → s.waiter ≡ stopping
      → Trace log s n log' t
      → (n + length log ≤ 12 + length log')
        × (Goes t ⊎ (r : HealthSummary F) × (t.waiter ≡ returned r))
  wait-returns {s} {t} h reach e run =
      let (bound, called) = Trace-Nearer run in
      let inv = Reach-Inv url (Trace-Reach reach run) in
      (ground arith, Inv-Goes t.waiter h inv refl (ground arith))
