-- ===== src/Command/Program/Refused.antt =====
-- What the arguments have to hold before the host is loaded.
use nixos_fleet.Base.{
  Bool, true, List, [], ◌∷◌, ◌≡◌, ◌⊎◌, inl, inr, refl, Option, none, some, any, arith, Bytes,
  Option-cases, Result,
}
use nixos_fleet.Base.Float.{Float64}
use nixos_fleet.Command.State.{MainEnv}
use nixos_fleet.Command.Stages.{bench_host}
use nixos_fleet.Command.Guards.{actions_of, loads, main_args-loads}
use nixos_fleet.Command.Options.{Options, Parsers, defaults, formals}
use nixos_fleet.Command.Program.{main_parsed, main}
use nixos_fleet.Text.Flag.{
  Kind, switch, valued, Reading, ends, ends_behind, asks_help, wrong, took, took_next, Parsed,
  parsed, help, bad, parse_bool, Flag, Shape, plain, dashes, malformed, flag, shape, find_flag,
  set_switch, set_value, with_next, apply_kind, apply_shape, parse_one, parse_flags,
}
use nixos_fleet.Command.Program.Arguments.{Forces, Any, shape-Forces, behind}
use nixos_fleet.Command.Program.Effects.{Effect, find_flag-Effect, formals-Effect}

module _ {ℓ} {F : Type ℓ} where
  -- What reading one argument gave.
  abbrev Gave : Reading (Options F) → Options F → Type ℓ
  Gave r o = (r ≡ took o) ⊎ (r ≡ took_next o)

  -- Where `force` is set behind an argument, it was set before, or the argument sets it.
  abbrev Blames : Bytes → Options F → Options F → Type 0
  Blames a o o' = o'.force ≡ true → (o.force ≡ true) ⊎ Forces a

  set_switch-Blames :
      (a : Bytes) (l : Flag) (set : Bool → Options F → Options F) (value : Option Bytes)
      (o : Options F) {o' : Options F}
      → shape a ≡ flag l
      → l.value ≡ value
      → Effect l.name (switch set)
      → Gave (set_switch set value o) o'
      → Blames a o o'
  set_switch-Blames a l set none o named v h g forced = elim (h true o) [
    | inl kept ↦ inl (ground arith)
    | inr (n, is_set) ↦ inr (shape-Forces a l named (n, inl v))
  ]
  set_switch-Blames a l set (some x) o named v h g forced = elim (Option-cases (parse_bool x)) [
    | inl no_bool ↦ absurd (ground arith)
    | inr (b, is) ↦ elim (h b o) [
      | inl kept ↦ inl (ground arith)
      | inr (n, is_set) ↦ inr (shape-Forces a l named (n, inr (x, v, ground arith)))
    ]
  ]

  set_valued-Blames :
      (a : Bytes) (l : Flag) (set : Bytes → Options F → Result (Options F))
      (value next : Option Bytes) (o : Options F) {o' : Options F}
      → Effect l.name (valued set)
      → Gave (elim value [ none ↦ with_next set next o | some v ↦ set_value took (set v o) ]) o'
      → Blames a o o'
  set_valued-Blames a l set none none o h g forced = absurd (ground arith)
  set_valued-Blames a l set none (some v) o {o'} h g forced = inl (ground (arith, h v o o'))
  set_valued-Blames a l set (some v) next o {o'} h g forced = inl (ground (arith, h v o o'))

  apply_kind-Blames :
      (a : Bytes) (l : Flag) (k : Option (Kind (Options F))) (next : Option Bytes) (o : Options F)
      {o' : Options F}
      → shape a ≡ flag l
      → ((k' : Kind (Options F)) → k ≡ some k' → Effect l.name k')
      → Gave (apply_kind k l next o) o'
      → Blames a o o'
  apply_kind-Blames a l none next o named h g = λ forced. absurd (ground arith)
  apply_kind-Blames a l (some (switch set)) next o named h g =
      set_switch-Blames a l set l.value o named refl (h (switch set) refl) g
  apply_kind-Blames a l (some (valued set)) next o named h g =
      set_valued-Blames a l set l.value next o (h (valued set) refl) g

  blame :
      (o x : Options F) {a : Bytes} {later : Type 0}
      → (x.force ≡ true) ⊎ later
      → Blames a o x
      → (o.force ≡ true) ⊎ Forces a ⊎ later
  blame o x (inr l) h = inr (inr l)
  blame o x (inl e) h = elim (h e) [ inl before ↦ inl before | inr sets ↦ inr (inl sets) ]

  module _ (ps : Parsers F) where
    abbrev pub formal : Bytes → Option (Kind (Options F))
    formal = find_flag (formals ps)

    apply_shape-Blames :
        (a : Bytes) (s : Shape) (next : Option Bytes) (o : Options F) {o' : Options F}
        → shape a ≡ s
        → Gave (apply_shape formal s next o) o'
        → Blames a o o'
    apply_shape-Blames a plain next o e g = λ forced. absurd (ground arith)
    apply_shape-Blames a dashes next o e g = λ forced. absurd (ground arith)
    apply_shape-Blames a malformed next o e g = λ forced. absurd (ground arith)
    apply_shape-Blames a (flag l) next o e g =
        apply_kind-Blames a l (formal l.name) next o e
          (λ k. find_flag-Effect (formals ps) l.name k (formals-Effect ps)) g

    parse_one-Blames :
        (a : Bytes) (next : Option Bytes) (o : Options F) {o' : Options F}
        → Gave (parse_one formal a next o) o'
        → Blames a o o'
    unfolding parse_one
    parse_one-Blames a next o g = apply_shape-Blames a (shape a) next o refl g

    -- The parse goes on behind an argument that was read.
    after-Blames :
        (a : Bytes) (next : Option Bytes) (o : Options F) (r : Reading (Options F))
        (stay behind rest : List Bytes) (one two : Options F → Parsed (Options F)) {o' : Options F}
        (later : Type 0)
        → parse_one formal a next o ≡ r
        → ((x : Options F) → one x ≡ parsed o' rest → (x.force ≡ true) ⊎ later)
        → ((x : Options F) → two x ≡ parsed o' rest → (x.force ≡ true) ⊎ later)
        → elim r [
          | ends ↦ parsed o stay
          | ends_behind ↦ parsed o behind
          | asks_help ↦ help
          | wrong ↦ bad
          | took x ↦ one x
          | took_next x ↦ two x
        ]
          ≡ parsed o' rest
        → o'.force ≡ true
        → (o.force ≡ true) ⊎ Forces a ⊎ later
    after-Blames a next o ends stay behind rest one two later r h1 h2 e forced = inl (ground arith)
    after-Blames a next o ends_behind stay behind rest one two later r h1 h2 e forced =
        inl (ground arith)
    after-Blames a next o asks_help stay behind rest one two later r h1 h2 e forced = absurd (cc)
    after-Blames a next o wrong stay behind rest one two later r h1 h2 e forced = absurd (cc)
    after-Blames a next o (took x) stay behind rest one two later r h1 h2 e forced =
        blame o x (h1 x e) (parse_one-Blames a next o (inl r))
    after-Blames a next o (took_next x) stay behind rest one two later r h1 h2 e forced =
        blame o x (h2 x e) (parse_one-Blames a next o (inr r))

    parse_flags-Blames :
        (args : List Bytes) (o : Options F) {o' : Options F} {rest : List Bytes}
        → parse_flags formal args o ≡ parsed o' rest
        → o'.force ≡ true
        → (o.force ≡ true) ⊎ Any Forces args
    unfolding parse_flags
    parse_flags-Blames [] o e forced = inl (ground arith)
    parse_flags-Blames (a ∷ []) o {o'} {rest} e forced =
        after-Blames a none o (parse_one formal a none o) (a ∷ []) [] rest (λ x. parsed x [])
          (λ x. parsed x []) ⊥ refl (λ x h. inl (ground arith)) (λ x h. inl (ground arith)) e forced
    parse_flags-Blames (a ∷ b ∷ args) o {o'} {rest} e forced =
        after-Blames a (some b) o (parse_one formal a (some b) o) (a ∷ b ∷ args) (b ∷ args) rest
          (parse_flags formal (b ∷ args)) (parse_flags formal args) (Any Forces (b ∷ args)) refl
          (λ x h. parse_flags-Blames (b ∷ args) x h forced)
          (λ x h. behind (parse_flags-Blames args x h forced)) e forced

module _ {ℓ} {F : Type ℓ} ⦃f : Float64 F⦄ (ps : Parsers F) where
  main_parsed-loads :
      (args : List Bytes) (env : Options F → MainEnv F) (p : Parsed (Options F))
      → parse_flags (formal ps) args defaults ≡ p
      → any loads (actions_of (main_parsed env p)) ≡ true
      → (o : Options F) × (rest : List Bytes) × (parse_flags (formal ps) args defaults
          ≡ parsed o rest)
        × (Any Forces args ⊎ (env o).hostname ≡ bench_host)
        × ((env o).euid ≡ 0)
  unfolding defaults
  main_parsed-loads args env help e h = absurd (ground arith)
  main_parsed-loads args env bad e h = absurd (ground arith)
  main_parsed-loads args env (parsed o rest) e h =
      let (allowed, root) = main_args-loads rest o (env o) h in
      (
        o,
        rest,
        e,
        elim allowed [
          | inl forced ↦ elim (parse_flags-Blames ps args defaults e forced) [
            | inl default ↦ absurd (cc)
            | inr given ↦ inl given
          ]
          | inr here ↦ inr here
        ],
        root,
      )

  -- Whatever the arguments, where anything is run that loads the host, the flags were read, the
  -- user is root, and the host is the bench's or one of the arguments is -force or --force, alone
  -- or with a value that is true.
  pub main-loads :
      (args : List Bytes) (env : Options F → MainEnv F)
      → any loads (actions_of (main ps args env)) ≡ true
      → (o : Options F) × (rest : List Bytes) × (parse_flags (formal ps) args defaults
          ≡ parsed o rest)
        × (Any Forces args ⊎ (env o).hostname ≡ bench_host)
        × ((env o).euid ≡ 0)
  unfolding main
  main-loads args env h = main_parsed-loads args env (parse_flags (formal ps) args defaults) refl h
