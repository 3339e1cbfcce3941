-- ===== src/Command/Stages/Kept.antt =====
-- What a stage of `main` keeps: the report, by what was run, and when it is written.
use nixos_fleet.Base.{
  Bool, true, false, List, [], ◌∷◌, ◌++◌, ◌≡◌, ◌⊎◌, inl, inr, refl, sym, ◌∙◌, Option, none, some,
  any, Bytes, arith, Error, Result, ok, err, if◌then◌else◌,
}
use nixos_fleet.Command.State.{
  Report, Action, ran_dns, ran_probe, ran_idle, ran_phase, ran_direct, wrote_json, MainEnv, Bench,
  Stage, on, exited, and_next, act, marshalled, write_json,
}
use nixos_fleet.Command.Stages.{first_report}
use nixos_fleet.Transcode.Phase.{PhaseResult}

pub any-append {ℓ} :
    {A : Type ℓ} (p : A → Bool) (xs : List A) (x : A)
    → any p xs ≡ false
    → p x ≡ false
    → any p (xs ++ x ∷ []) ≡ false
any-append p [] x h n = ground arith
any-append p (y ∷ xs) x h n = ground (arith, any-append p xs x)

module _ {ℓ} {F : Type ℓ} (env : MainEnv F) where
  abbrev pub kept_phases : PhaseResult F × Option Error → List (PhaseResult F)
  kept_phases (p, none) = p ∷ []
  kept_phases (p, some e) = []

  -- What one action leaves in the report.
  abbrev pub record_one : Report F → Action F → Report F
  record_one r (ran_dns name) = record r { dns = some (env.dns name) }
  record_one r (ran_probe cache health xml) = record r { probe = some (env.probe cache health xml) }
  record_one r (ran_idle disk health run_for) = record r {
    phases = r.phases ++ kept_phases (env.idle disk health run_for);
  }
  record_one r (ran_phase o) = record r { phases = r.phases ++ ((env.phase o).0) ∷ [] }
  record_one r (ran_direct d) = record r { direct_play = some ((env.direct d).0) }
  record_one r (wrote_json w) = r

  -- The report of these actions, with no notes.
  unfoldable pub recorded : Report F → List (Action F) → Report F
  recorded r [] = r
  recorded r (a ∷ done) = recorded (record_one r a) done

  recorded-append :
      (done : List (Action F)) (r : Report F) (a : Action F)
      → recorded r (done ++ a ∷ []) ≡ record_one (recorded r done) a
  unfolding recorded
  recorded-append [] r a = refl
  recorded-append (x ∷ done) r a = recorded-append done (record_one r x) a

  abbrev pub bare : Report F → Report F
  bare r = record r { notes = [] }

  abbrev pub writes : Action F → Bool
  writes (wrote_json r) = true
  writes _ = false

  abbrev pub IsRecorded : Bench F → Type ℓ
  IsRecorded b = bare b.report ≡ recorded (first_report env) b.actions

  -- Nothing is written yet.
  abbrev pub Good : Bench F → Type ℓ
  Good b = IsRecorded b × (any writes b.actions ≡ false)

  -- What is written is the report, at the end.
  abbrev pub IsWrittenLast : Bench F → Type ℓ
  IsWrittenLast b =
      (before : List (Action F)) × (any writes before ≡ false)
      × ((b.actions ≡ before) ⊎ (b.actions ≡ before ++ wrote_json b.report ∷ []))

  abbrev pub IsTold : Bench F → Type ℓ
  IsTold b = IsRecorded b × IsWrittenLast b

  abbrev pub Keeps : Stage F → Type ℓ
  Keeps (on b) = Good b
  Keeps (exited n b) = IsTold b

  pub if-Keeps : (c : Bool) (s t : Stage F) → Keeps s → Keeps t → Keeps (if c then s else t)
  if-Keeps true s t x y = x
  if-Keeps false s t x y = y

  pub if-IsTold :
      (c : Bool) (s t : Bench F × Option Error)
      → IsTold (s.0)
      → IsTold (t.0)
      → IsTold ((if c then s else t).0)
  if-IsTold true s t x y = x
  if-IsTold false s t x y = y

  pub and_next-Keeps :
      (s : Stage F) (next : Bench F → Stage F)
      → Keeps s
      → ((b : Bench F) → Good b → Keeps (next b))
      → Keeps (and_next s next)
  and_next-Keeps (on b) next h k = k b h
  and_next-Keeps (exited n b) next h k = h

  pub exit-Keeps : (b : Bench F) → Good b → IsTold b
  exit-Keeps b (r, n) = (r, (b.actions, n, inl refl))

  pub act-Good :
      (a : Action F) (r : Report F) (b : Bench F)
      → Good b
      → bare r ≡ record_one (bare b.report) a
      → writes a ≡ false
      → Good (act a r b)
  act-Good a r b (same, none_) e n = (
    e ∙ (rw same refl) ∙ sym (recorded-append b.actions (first_report env) a),
    any-append writes b.actions a none_ n,
  )

  pub marshalled-Keeps :
      (path : Bytes) (b : Bench F) (r : Result Bytes)
      → Good b
      → IsTold ((marshalled env path b r).0)
  marshalled-Keeps path b (err e) h = exit-Keeps b h
  marshalled-Keeps path b (ok text) (r, n) = (
    r ∙ sym (recorded-append b.actions (first_report env) (wrote_json b.report)),
    (b.actions, n, inr refl),
  )

  pub write_json-Keeps : (path : Bytes) (b : Bench F) → Good b → IsTold ((write_json env path b).0)
  unfolding write_json
  write_json-Keeps path b h =
      if-IsTold _ (b, none) _ (exit-Keeps b h) (marshalled-Keeps path b (env.marshal b.report) h)
