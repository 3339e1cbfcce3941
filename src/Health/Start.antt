-- ===== src/Health/Start.antt =====
-- scripts/jellyfin-io-bench/health.go: `startHealth`, the goroutine that polls and the closure that
-- stops it and takes its summary, one step at a time.
pub mod Joined
pub mod Ends
use nixos_fleet.Base.{
  ℕ, ◌+◌, ◌-◌, ◌<◌, Bool, true, false, List, [], ◌∷◌, ◌++◌, ◌≡◌, ◌⊎◌, inl, inr, Bytes,
  if◌then◌else◌,
}
use nixos_fleet.Base.Float.{Float64, of_uint}
use nixos_fleet.Health.{HealthSummary, Hit, no_summary, hit, average}
use nixos_fleet.Text.Cut.{equal}

-- Where the goroutine stands. `polling` is pollHealth at its select, with the summary so far.
pub data Worker {ℓ} (F : Type ℓ) : Type ℓ where
  starting unlocking finishing finished : Worker F
  polling leaving storing : HealthSummary F → Worker F

-- Where the closure stands, from its call to its return.
pub data Waiter {ℓ} (F : Type ℓ) : Type ℓ where
  uncalled stopping joining locking reading : Waiter F
  releasing returned : HealthSummary F → Waiter F

-- What the two share, `sum`, `mu`, `wg` and the context, and where each of them stands.
pub record Shared {ℓ} (F : Type ℓ) : Type ℓ where
  pub sum : HealthSummary F
  pub locked : Bool
  pub pending : ℕ
  pub cancelled : Bool
  pub worker : Worker F
  pub waiter : Waiter F

module _ {ℓ} {F : Type ℓ} ⦃f : Float64 F⦄ where
  -- Behind `wg.Add(1)` and `go`.
  unfoldable pub launched : Shared F
  launched = record {
    sum = no_summary [];
    locked = false;
    pending = 1;
    cancelled = false;
    worker = starting;
    waiter = uncalled;
  }

  -- Without a URL nothing runs, and the closure returns the summary on the left.
  unfoldable pub start_health : Bytes → HealthSummary F ⊎ Shared F
  start_health url = if equal url [] then inl (no_summary []) else inr launched

  -- One step of one of them, and the requests that it makes. A select with both channels ready
  -- takes either, so a tick may come after the context's end.
  pub data Move (url : Bytes) (s : Shared F) (made : List Hit) (t : Shared F) : Type ℓ where
    first_hit :
        (h : Hit)
        → s.worker ≡ starting
        → made ≡ h ∷ []
        → t ≡ record s { worker = polling (hit (no_summary url) h) }
        → Move url s made t
    tick :
        (p : HealthSummary F) (h : Hit)
        → s.worker ≡ polling p
        → made ≡ h ∷ []
        → t ≡ record s { worker = polling (hit p h) }
        → Move url s made t
    done :
        (p : HealthSummary F)
        → s.worker ≡ polling p
        → s.cancelled ≡ true
        → made ≡ []
        → t ≡ record s { worker = leaving (average p) }
        → Move url s made t
    worker_lock :
        (p : HealthSummary F)
        → s.worker ≡ leaving p
        → s.locked ≡ false
        → made ≡ []
        → t ≡ record s { worker = storing p; locked = true }
        → Move url s made t
    store :
        (p : HealthSummary F)
        → s.worker ≡ storing p
        → made ≡ []
        → t ≡ record s { worker = unlocking; sum = p }
        → Move url s made t
    worker_unlock :
        s.worker ≡ unlocking
        → made ≡ []
        → t ≡ record s { worker = finishing; locked = false }
        → Move url s made t
    finish :
        s.worker ≡ finishing
        → made ≡ []
        → t ≡ record s { worker = finished; pending = s.pending - 1 }
        → Move url s made t
    stop :
        s.waiter ≡ stopping
        → made ≡ []
        → t ≡ record s { waiter = joining; cancelled = true }
        → Move url s made t
    join :
        s.waiter ≡ joining
        → s.pending ≡ 0
        → made ≡ []
        → t ≡ record s { waiter = locking }
        → Move url s made t
    lock :
        s.waiter ≡ locking
        → s.locked ≡ false
        → made ≡ []
        → t ≡ record s { waiter = reading; locked = true }
        → Move url s made t
    read :
        s.waiter ≡ reading
        → made ≡ []
        → t ≡ record s { waiter = releasing s.sum }
        → Move url s made t
    unlock :
        (p : HealthSummary F)
        → s.waiter ≡ releasing p
        → made ≡ []
        → t ≡ record s { waiter = returned p; locked = false }
        → Move url s made t

  -- A step of the program, or one from outside: the parent context ends or the other function that
  -- startHealth returns is called, and the closure is called.
  pub data Step (url : Bytes) (s : Shared F) (made : List Hit) (t : Shared F) : Type ℓ where
    move : Move url s made t → Step url s made t
    cancel : s.cancelled ≡ false → made ≡ [] → t ≡ record s { cancelled = true } → Step url s made t
    call : s.waiter ≡ uncalled → made ≡ [] → t ≡ record s { waiter = stopping } → Step url s made t

  -- The states behind any order of the steps, with the requests that were made till then.
  pub data Reach (url : Bytes) : List Hit → Shared F → Type ℓ where
    here : {s : Shared F} → start_health url ≡ inr s → Reach url [] s
    next :
        {log made log' : List Hit} {s t : Shared F}
        → Reach url log s
        → Step url s made t
        → log' ≡ log ++ made
        → Reach url log' t
