-- ===== src/Runner/Run/Guarded.antt =====
-- The runs of the main module in which no code of it stands before the preparation, and how two
-- such parts follow each other.
use bls_runtime.Prelude.{◌≡◌, refl, Bool, true, false, [], ◌∷◌, inl, inr, ◌⊎◌}
use bls_runtime.Config.{PermissionsConfig}
use bls_runtime.Cli.{Outcome, done, refused, panics, exits}
use bls_runtime.Runner.Run

-- A step that runs code of the main module.
abbrev pub is_execution : Run.Step → Bool
is_execution Run.instantiate = true
is_execution Run.initialize = true
is_execution (Run.call name) = true
is_execution Run.call_run = true
is_execution _ = false

-- A step that a log has.
abbrev pub Among : Run.Step → Run.Log → Type 0
Among s [] = ⊥
Among s (x ∷ log) = (s ≡ x) ⊎ Among s log

-- The last step of the preparation, behind the setup of the linker for the target: a core module
-- gets the permissions of the configuration, a component its context.
abbrev pub IsSetup : PermissionsConfig → Run.Target → Run.Step → Run.Log → Type 0
IsSetup p Run.core s log = (s ≡ Run.set_permisions p) × Among Run.preview1_linker_setup log
IsSetup p Run.component s log = (s ≡ Run.preview2_setup) × Among Run.component_linker_setup log

-- The newest step of a log stands first.
abbrev pub IsPrepared : PermissionsConfig → Run.Target → Run.Log → Type 0
IsPrepared p t [] = ⊥
IsPrepared p t (s ∷ log) = IsSetup p t s log ⊎ IsPrepared p t log

-- Every step that runs code of the main module stands behind the preparation.
abbrev pub IsGuarded : PermissionsConfig → Run.Target → Run.Log → Type 0
IsGuarded p t [] = Unit
IsGuarded p t (s ∷ log) = (is_execution s ≡ true → IsPrepared p t log) × IsGuarded p t log

module _ (p : PermissionsConfig) (t : Run.Target) where
  -- From a log with `P`, the log stays guarded, and has `Q` where the part is done.
  unfoldable pub Holds :
      {A : Type 0} → (Run.Log → Type 0) → Run.Run A → (A → Run.Log → Type 0) → Type 0
  Holds {A} P m Q =
      (log : Run.Log)
      → P log
      → IsGuarded p t (m log).0 × ((a : A) → (m log).1 ≡ done a → Q a (m log).0)

  pub bind_holds :
      {A B : Type 0} (P : Run.Log → Type 0) (Q : A → Run.Log → Type 0) (R : B → Run.Log → Type 0)
      (m : Run.Run A) (f : A → Run.Run B)
      → Holds P m Q
      → ((a : A) → Holds (Q a) (f a) R)
      → Holds P (λ log. Run.then_run (m log) f) R
  unfolding Holds
  bind_holds {A} {B} P Q R m f hm hf log h = go (m log) (hm log h).0 (hm log h).1
    where
      go :
          (r : Run.Log × Outcome A)
          → IsGuarded p t r.0
          → ((a : A) → r.1 ≡ done a → Q a r.0)
          → IsGuarded p t (Run.then_run r f).0
            × ((b : B) → (Run.then_run r f).1 ≡ done b → R b (Run.then_run r f).0)
      go (log, done a) guarded q = hf a log (q a refl)
      go (log, refused) guarded q = (guarded, λ b e. absurd (cc))
      go (log, panics) guarded q = (guarded, λ b e. absurd (cc))
      go (log, exits) guarded q = (guarded, λ b e. absurd (cc))

  abbrev pub Ready : {A : Type 0} → A → Run.Log → Type 0
  Ready a log = IsGuarded p t log

  abbrev pub Prepared : {A : Type 0} → A → Run.Log → Type 0
  Prepared a log = IsGuarded p t log × IsPrepared p t log

  -- A step that runs no code of the main module.
  pub plain_step :
      {A : Type 0} (s : Run.Step) (o : Outcome A)
      → is_execution s ≡ false
      → Holds (IsGuarded p t) (λ log. (s ∷ log, o)) Ready
  unfolding Holds
  plain_step s o plain log h =
      let guarded : IsGuarded p t (s ∷ log) = ((λ e. absurd (cc (e, plain))), h) in
      (guarded, λ a e. guarded)

  -- Behind the preparation, every step is guarded.
  pub any_step :
      {A : Type 0} (s : Run.Step) (o : Outcome A)
      → Holds (Prepared tt) (λ log. (s ∷ log, o)) Prepared
  unfolding Holds
  any_step s o log (h, k) = (((λ e. k), h), λ a e. (((λ e. k), h), inr k))

  pub pure_holds :
      {A : Type 0} (P : Run.Log → Type 0) (a : A)
      → ((log : Run.Log) → P log → IsGuarded p t log)
      → Holds P (Run.pure a) (λ b. P)
  unfolding Holds
  pure_holds P a guarded log h = (guarded log h, λ b e. h)

  pub when_holds :
      (P : Run.Log → Type 0) (b : Bool) (m : Run.Run Bool)
      → ((log : Run.Log) → P log → IsGuarded p t log)
      → Holds P m (λ a. P)
      → Holds P (Run.when b m) (λ a. P)
  unfolding Holds
  when_holds P true m guarded h = h
  when_holds P false m guarded h = pure_holds P true guarded

  -- The ways in which two parts of a run follow each other.
  pub bind_before :
      {A B : Type 0} (m : Run.Run A) (f : A → Run.Run B)
      → Holds (IsGuarded p t) m Ready
      → ((a : A) → Holds (IsGuarded p t) (f a) Ready)
      → Holds (IsGuarded p t) (λ log. Run.then_run (m log) f) Ready
  bind_before m f = bind_holds (IsGuarded p t) Ready Ready m f

  pub bind_until :
      {A B : Type 0} (m : Run.Run A) (f : A → Run.Run B)
      → Holds (IsGuarded p t) m Ready
      → ((a : A) → Holds (IsGuarded p t) (f a) Prepared)
      → Holds (IsGuarded p t) (λ log. Run.then_run (m log) f) Prepared
  bind_until m f = bind_holds (IsGuarded p t) Ready Prepared m f

  pub prepares :
      {A B : Type 0} (m : Run.Run A) (f : A → Run.Run B)
      → Holds (IsGuarded p t) m Prepared
      → ((a : A) → Holds (Prepared tt) (f a) Prepared)
      → Holds (IsGuarded p t) (λ log. Run.then_run (m log) f) Prepared
  prepares m f = bind_holds (IsGuarded p t) Prepared Prepared m f

  pub bind_behind :
      {A B : Type 0} (m : Run.Run A) (f : A → Run.Run B)
      → Holds (Prepared tt) m Prepared
      → ((a : A) → Holds (Prepared tt) (f a) Prepared)
      → Holds (Prepared tt) (λ log. Run.then_run (m log) f) Prepared
  bind_behind m f = bind_holds (Prepared tt) Prepared Prepared m f

  -- The setup of the linker, and the step behind it that ends the preparation.
  pub linker_step :
      {A : Type 0} (s : Run.Step) (o : Outcome A)
      → is_execution s ≡ false
      → Holds (IsGuarded p t) (λ log. (s ∷ log, o)) (λ a log. IsGuarded p t log × Among s log)
  unfolding Holds
  linker_step s o plain log h =
      let guarded : IsGuarded p t (s ∷ log) = ((λ e. absurd (cc (e, plain))), h) in
      (guarded, λ a e. (guarded, inl refl))

  pub setup_step :
      {A : Type 0} (before s : Run.Step) (o : Outcome A)
      → ((log : Run.Log) → Among before log → IsSetup p t s log)
      → is_execution s ≡ false
      → Holds (λ log. IsGuarded p t log × Among before log) (λ log. (s ∷ log, o)) Prepared
  unfolding Holds
  setup_step before s o setup plain log (h, k) =
      let guarded : IsGuarded p t (s ∷ log) = ((λ e. absurd (cc (e, plain))), h) in
      (guarded, λ a e. (guarded, inl (setup log k)))
