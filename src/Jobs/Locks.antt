-- ===== src/Jobs/Locks.antt =====
-- The locks of one run of jobs/run_batch.py.
use azure_lakehouse_pipeline.Jobs.Closed.{
  IsClosed, bind-closed, guarded-closed, fails, AreBuilt-entered,
}
use azure_lakehouse_pipeline.Json.{JsonCodec}
use azure_lakehouse_pipeline.Jobs.Trace.{
  local_lock, silver_lock, gold_lock, Lock, Step, acquired, local_lock, silver_lock, released,
  enter, logged, stopped_session,
}
use azure_lakehouse_pipeline.Prelude.{
  List, Bool, ◌≡◌, Option, some, true, ◌++◌, none, inl, ◌∷◌, ap, refl, inr, if◌then◌else◌,
  Bool-cases, [], ◌∙◌, not, sym, false, arith, suc, ℕ, zero,
}
use azure_lakehouse_pipeline.Jobs.RunMode.{Stages}
use azure_lakehouse_pipeline.Jobs.Main.{Environment, main, is_cloud}
use azure_lakehouse_pipeline.Jobs.Args.{Args, is_blank}
use mathlib.Core.List.{append_assoc, append-nil}
use azure_lakehouse_pipeline.Jobs.Sessions.{IsOpen, run_session-closed}

abbrev pub same_lock : Lock → Lock → Bool
same_lock local_lock local_lock = true
same_lock silver_lock silver_lock = true
same_lock gold_lock gold_lock = true
same_lock _ _ = false

abbrev lower : ℕ → Option ℕ
lower zero = none
lower (suc n) = some n

-- How many times a lock is held after the steps, or none where it is released and is not held.
unfoldable pub held_after : Lock → ℕ → List Step → Option ℕ
held_after lock n [] = some n
held_after lock n (acquired l ∷ steps) =
    held_after lock (if same_lock l lock then suc n else n) steps
held_after lock n (released l ∷ steps) = elim (if same_lock l lock then lower n else some n) [
  | none ↦ none
  | some m ↦ held_after lock m steps
]
held_after lock n (enter s ∷ steps) = held_after lock n steps
held_after lock n (logged status total ∷ steps) = held_after lock n steps
held_after lock n (stopped_session ∷ steps) = held_after lock n steps

abbrev IsBalanced : Lock → List Step → Type 0
IsBalanced lock xs =
    (n : ℕ) (rest : List Step) → held_after lock n (xs ++ rest) ≡ held_after lock n rest

IsBalanced-append :
    (lock : Lock) (xs ys : List Step)
    → IsBalanced lock xs
    → IsBalanced lock ys
    → IsBalanced lock (xs ++ ys)
IsBalanced-append lock xs ys hx hy =
    λ n rest. ap (held_after lock n) (append_assoc xs ys rest) ∙ hx n (ys ++ rest) ∙ hy n rest

released-held :
    (lock l : Lock) (n : ℕ) (rest : List Step)
    → held_after lock (if same_lock l lock then suc n else n) (released l ∷ rest)
      ≡ held_after lock n rest
unfolding held_after
released-held local_lock local_lock n rest = refl
released-held local_lock silver_lock n rest = refl
released-held local_lock gold_lock n rest = refl
released-held silver_lock local_lock n rest = refl
released-held silver_lock silver_lock n rest = refl
released-held silver_lock gold_lock n rest = refl
released-held gold_lock local_lock n rest = refl
released-held gold_lock silver_lock n rest = refl
released-held gold_lock gold_lock n rest = refl

IsBalanced-locked :
    (lock l : Lock) (xs : List Step)
    → IsBalanced lock xs
    → IsBalanced lock (acquired l ∷ (xs ++ (released l ∷ [])))
unfolding held_after
IsBalanced-locked lock l xs h = λ n rest.
    let held = if same_lock l lock then suc n else n in
    ap (held_after lock held) (append_assoc xs (released l ∷ []) rest)
    ∙ h held (released l ∷ rest)
    ∙ released-held lock l n rest

same_lock_sound : (l lock : Lock) → same_lock l lock ≡ true → l ≡ lock
same_lock_sound local_lock local_lock h = refl
same_lock_sound silver_lock silver_lock h = refl
same_lock_sound gold_lock gold_lock h = refl
same_lock_sound local_lock silver_lock h = absurd (ground arith)
same_lock_sound local_lock gold_lock h = absurd (ground arith)
same_lock_sound silver_lock local_lock h = absurd (ground arith)
same_lock_sound silver_lock gold_lock h = absurd (ground arith)
same_lock_sound gold_lock local_lock h = absurd (ground arith)
same_lock_sound gold_lock silver_lock h = absurd (ground arith)

-- A lock that may be left is another one than one that does not fail.
other_lock :
    (stages : Stages) (lock l : Lock)
    → fails stages lock ≡ false
    → fails stages l ≡ true
    → same_lock l lock ≡ false
other_lock stages lock l works broken = elim (Bool-cases (same_lock l lock)) [
  | inr other ↦ other
  | inl same ↦
      let contradiction : true ≡ false =
        sym broken ∙ ap (fails stages) (same_lock_sound l lock same) ∙ works in
      absurd (ground arith)
]

IsBalanced-left :
    (stages : Stages) (lock l : Lock) (xs : List Step)
    → fails stages lock ≡ false
    → fails stages l ≡ true
    → IsBalanced lock xs
    → IsBalanced lock (acquired l ∷ xs)
unfolding held_after
IsBalanced-left stages lock l xs works broken h = λ n rest.
    ap (λ b. held_after lock (if b then suc n else n) (xs ++ rest))
      (other_lock stages lock l works broken)
    ∙ h n rest

IsBalanced-IsClosed :
    (stages : Stages) (lock : Lock) → fails stages lock ≡ false → IsClosed stages (IsBalanced lock)
unfolding held_after
IsBalanced-IsClosed stages lock works = record {
  nothing = λ n rest. refl;
  append = IsBalanced-append lock;
  locked = IsBalanced-locked lock;
  left = λ l xs broken h. IsBalanced-left stages lock l xs works broken h;
  entered = λ s other n rest. refl;
  log = λ total n rest. refl;
}

IsBalanced-IsOpen : (lock : Lock) → IsOpen (IsBalanced lock)
unfolding held_after
IsBalanced-IsOpen lock = record { reported = λ status total n rest. refl; stopped = λ n rest. refl }

module _ (json : JsonCodec) (stages : Stages) (env : Environment) (args : Args) (lock : Lock)
    (works : fails stages lock ≡ false) where
  -- A lock that does not fail is held as often after a run as before.
  pub main-locks :
      (raw : Option json.Text) → held_after lock 0 (main json stages env args raw).steps ≡ some 0
  unfolding main held_after
  main-locks raw =
      let c = IsBalanced-IsClosed stages lock works in
      let balanced : IsBalanced lock (main json stages env args raw).steps =
        bind-closed stages (IsBalanced lock) c _ _ c.nothing (λ vars.
          bind-closed stages (IsBalanced lock) c _ _ c.nothing (λ u.
            bind-closed stages (IsBalanced lock) c _ _ c.nothing (λ config.
              bind-closed stages (IsBalanced lock) c _ _ c.nothing (λ upstream.
                bind-closed stages (IsBalanced lock) c _ _
                  (guarded-closed stages (IsBalanced lock) c (not (is_blank config.master))
                    local_lock _
                    (run_session-closed (IsBalanced lock) stages c (IsBalanced-IsOpen lock) env args
                      config
                      (AreBuilt-entered stages (IsBalanced lock) c (is_cloud config)
                        (λ s n rest. refl))
                      upstream))
                  (λ m. c.nothing))))) in
      ap (held_after lock 0) (sym (append-nil (main json stages env args raw).steps))
      ∙ balanced 0 []
