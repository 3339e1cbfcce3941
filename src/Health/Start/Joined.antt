-- ===== src/Health/Start/Joined.antt =====
-- What the closure of `startHealth` returns, in any order of the steps.
use mathlib.Core.List.{append-nil}
use nixos_fleet.Base.{
  ℕ, ◌+◌, ◌<◌, Bool, true, List, [], ◌∷◌, ◌++◌, ◌≡◌, ◌≢◌, inl, inr, ◌∙◌, refl, sym, if◌then◌else◌,
  arith, Bytes, Bool-cases, length, length-append,
}
use nixos_fleet.Base.Float.{Float64}
use nixos_fleet.Health.{HealthSummary, Hit, no_summary, hit, hits, average, poll_health}
use nixos_fleet.Health.Start.{
  Worker, starting, unlocking, finished, polling, leaving, storing, Waiter, uncalled, stopping,
  locking, reading, releasing, returned, Shared, launched, start_health, Step, move, first_hit,
  tick, done, worker_lock, store, worker_unlock, finish, cancel, call, stop, join, lock, read,
  unlock, Reach, here, next,
}
use nixos_fleet.Health.Counts.{poll_health-average}
use nixos_fleet.Text.Cut.{equal, equal_iff}

-- Whether each of them is between its `Lock` and its `Unlock`.
abbrev pub worker_holds {ℓ} : {F : Type ℓ} → Worker F → ℕ
worker_holds (storing p) = 1
worker_holds unlocking = 1
worker_holds _ = 0

abbrev pub waiter_holds {ℓ} : {F : Type ℓ} → Waiter F → ℕ
waiter_holds reading = 1
waiter_holds (releasing p) = 1
waiter_holds _ = 0

abbrev pub to_finish {ℓ} : {F : Type ℓ} → Worker F → ℕ
to_finish finished = 0
to_finish _ = 1

module _ {ℓ} {F : Type ℓ} ⦃f : Float64 F⦄ (url : Bytes) where
  hits-append :
      (sum : HealthSummary F) (log : List Hit) (h : Hit)
      → hits sum (log ++ h ∷ []) ≡ hit (hits sum log) h
  unfolding hits
  hits-append sum [] h = refl
  hits-append sum (x ∷ log) h = hits-append (hit sum x) log h

  hits_first :
      (sum : HealthSummary F) (log : List Hit) (h : Hit)
      → log ≡ []
      → hits sum (log ++ h ∷ []) ≡ hit sum h
  unfolding hits
  hits_first sum log h e = rw e refl

  -- The summary of pollHealth, were the requests of `log` all that it makes.
  abbrev polled : List Hit → HealthSummary F
  polled log = average (hits (no_summary url) log)

  abbrev Asked : List Hit → Worker F → Type 0
  Asked log starting = log ≡ []
  Asked log _ = 0 < length log

  -- What the goroutine has by the requests of `log`.
  abbrev Progress : List Hit → HealthSummary F → Worker F → Type ℓ
  Progress log sum starting = Unit
  Progress log sum (polling p) = p ≡ hits (no_summary url) log
  Progress log sum (leaving p) = p ≡ polled log
  Progress log sum (storing p) = p ≡ polled log
  Progress log sum _ = sum ≡ polled log

  abbrev IsJoined : ℕ → Waiter F → Type 0
  IsJoined pending locking = pending ≡ 0
  IsJoined pending reading = pending ≡ 0
  IsJoined pending (releasing r) = pending ≡ 0
  IsJoined pending (returned r) = pending ≡ 0
  IsJoined pending _ = Unit

  -- What the closure has.
  abbrev Taken : List Hit → Waiter F → Type ℓ
  Taken log (releasing r) = r ≡ polled log
  Taken log (returned r) = r ≡ polled log
  Taken log _ = Unit

  -- A context that the closure has stopped is over.
  abbrev IsStopped : Bool → Waiter F → Type 0
  IsStopped over uncalled = Unit
  IsStopped over stopping = Unit
  IsStopped over _ = over ≡ true

  pub record Inv (log : List Hit) (s : Shared F) : Type ℓ where
    pub asked : Asked log s.worker
    pub progress : Progress log s.sum s.worker
    pub joined : IsJoined s.pending s.waiter
    pub stopped : IsStopped s.cancelled s.waiter
    pub taken : Taken log s.waiter
    pub exclusive : worker_holds s.worker + waiter_holds s.waiter ≡ (if s.locked then 1 else 0)
    pub counted : s.pending ≡ to_finish s.worker

  launched-Inv : Inv [] launched
  unfolding launched
  launched-Inv = ground arith

  silent-Inv : {log made : List Hit} {s : Shared F} → Inv log s → made ≡ [] → Inv (log ++ made) s
  silent-Inv {log} {s} inv e = rw (e, append-nil) inv

  Step-Inv :
      {log made : List Hit} {s t : Shared F} → Inv log s → Step url s made t → Inv (log ++ made) t
  Step-Inv {log} inv (move (first_hit h e m r)) =
      rw m (ground (arith, hits_first (no_summary url) log h, length-append log (h ∷ [])))
  Step-Inv {log} inv (move (tick p h e m r)) =
      rw m (ground (arith, hits-append (no_summary url) log h, length-append log (h ∷ [])))
  Step-Inv {log} inv (move (done p e c m r)) = silent-Inv (ground arith) m
  Step-Inv {log} inv (move (worker_lock p e l m r)) = silent-Inv (ground arith) m
  Step-Inv {log} inv (move (store p e m r)) = silent-Inv (ground arith) m
  Step-Inv {log} inv (move (worker_unlock e m r)) = silent-Inv (ground arith) m
  Step-Inv {log} inv (move (finish e m r)) = silent-Inv (ground arith) m
  Step-Inv {log} inv (cancel e m r) = silent-Inv (ground arith) m
  Step-Inv {log} inv (call e m r) = silent-Inv (ground arith) m
  Step-Inv {log} inv (move (stop e m r)) = silent-Inv (ground arith) m
  Step-Inv {log} inv (move (join e p m r)) = silent-Inv (ground arith) m
  Step-Inv {log} inv (move (lock e l m r)) = silent-Inv (ground arith) m
  Step-Inv {log} inv (move (read e m r)) = silent-Inv (ground arith) m
  Step-Inv {log} inv (move (unlock p e m r)) = silent-Inv (ground arith) m

  start_health-launched : {s : Shared F} → start_health url ≡ inr s → (url ≢ []) × (s ≡ launched)
  unfolding start_health
  start_health-launched {s} e = elim (Bool-cases (equal url [])) [
    | inl empty ↦ absurd (ground (arith, empty))
    | inr other ↦ (λ u. ground (arith, (equal_iff url []).1 u), ground (arith, other))
  ]

  pub Reach-polls : {log : List Hit} {s : Shared F} → Reach url log s → url ≢ []
  Reach-polls (here e) = (start_health-launched e).0
  Reach-polls (next r st e) = Reach-polls r

  pub Reach-Inv : {log : List Hit} {s : Shared F} → Reach url log s → Inv log s
  Reach-Inv (here e) = rw ((start_health-launched e).1) launched-Inv
  Reach-Inv (next r st e) = rw e (Step-Inv (Reach-Inv r) st)

  polled-poll_health :
      (log : List Hit)
      → url ≢ []
      → 0 < length log
      → (first : Hit) × (ticks : List Hit) × (log ≡ first ∷ ticks)
        × (polled log ≡ poll_health url first ticks)
  polled-poll_health [] h l = absurd (omega arith)
  polled-poll_health (first ∷ ticks) h l =
      (first, ticks, refl, sym (poll_health-average url first ticks h))

  -- Whatever the order of the steps, what the closure returns is the summary of pollHealth for the
  -- requests that the goroutine made, all of them and in their order, and there is at least one: it
  -- is never the empty value that `sum` starts with, nor a summary that is not complete.
  pub wait-polled :
      {log : List Hit} {s : Shared F} {r : HealthSummary F}
      → Reach url log s
      → s.waiter ≡ returned r
      → (first : Hit) × (ticks : List Hit) × (log ≡ first ∷ ticks)
        × (r ≡ poll_health url first ticks)
  wait-polled {log} {s} {r} reach e =
      let inv = Reach-Inv reach in
      let some_made : 0 < length log = ground arith in
      let taken : r ≡ polled log = ground arith in
      let (first, ticks, all, same) = polled-poll_health log (Reach-polls reach) some_made in
      (first, ticks, all, taken ∙ same)
