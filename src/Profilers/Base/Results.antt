-- ===== src/Profilers/Base/Results.antt =====
-- What `_wait_for_profiles` of gprofiler/profilers/profiler_base.py returns for each process.
use Prim.Native.String.{◌++◌ as ◌⧺◌}
use gprofiler.Prelude.{
  ℕ, String, ◌≡◌, refl, ap, ◌∙◌, inl, inr, Bool, true, false, ◌||◌, Option, none, some, List, [],
  ◌∷◌,
}
use gprofiler.Prelude.Tests.{if◌then◌else◌, eqb, eqb_iff, Bool-cases}
use gprofiler.Prelude.Lists.{All}
use gprofiler.Prelude.Result.{Exn, ok, err}
use gprofiler.Prelude.Mapping.{fetch, store, fetch-store}
use gprofiler.Prelude.Dict.{insert, lookup}
use gprofiler.Samples.Counters.{increase}
use gprofiler.Samples.ErrorStacks.{matches_error, is_error_stack, profiling_error_stack}
use gprofiler.Samples.Metadata.{ProfileData}
use gprofiler.Samples.Merge.{Profiles}
use gprofiler.Profilers.Base.{Outcome, Future, future_profile, wait_for_profiles}

-- The stack that says why a process has no samples.
abbrev pub error_text : String → String → String
error_text reason comm = comm ⧺ (";[Profiling " ⧺ ("error" ⧺ (": " ⧺ (reason ⧺ "]"))))

-- What an exception of the profiling of a process says.
abbrev pub gone : String
gone = "process went down during profiling"

error_stack :
    (reason comm : String)
    → matches_error (error_text reason comm) ≡ true
    → profiling_error_stack "error" reason comm ≡ ok ((error_text reason comm, 1) ∷ [])
unfolding profiling_error_stack increase insert is_error_stack lookup
error_stack reason comm h = rw (profiling_error_stack, h) refl

module _ {M : Type 0} where
  -- A profile of one sample, of the stack that says so.
  abbrev pub error_of : String → String → ProfileData M
  error_of reason comm = record {
    stacks = (error_text reason comm, 1) ∷ [];
    appid = none;
    app_metadata = none;
    container_name = none;
  }

  abbrev pub is_stop : Outcome M → Bool
  is_stop Outcome.stop_event = true
  is_stop other = false

  abbrev pub any_stops : List (Future M) → Bool
  any_stops [] = false
  any_stops (f ∷ fs) = is_stop f.outcome || any_stops fs

  -- The profile of a process that is not stopped, its own or one error stack.
  abbrev pub profile_for : String → Outcome M → Option (ProfileData M)
  profile_for comm (Outcome.returned profile) = some profile
  profile_for comm Outcome.went_down = some (error_of gone comm)
  profile_for comm (Outcome.raised type_name) = some (error_of ("exception " ⧺ type_name) comm)
  profile_for comm Outcome.stop_event = none

  -- The error stack of a future would be matched by the pattern of error stacks.
  abbrev pub IsTellable : String → Outcome M → Type 0
  IsTellable comm Outcome.went_down = matches_error (error_text gone comm) ≡ true
  IsTellable comm (Outcome.raised type_name) =
      matches_error (error_text ("exception " ⧺ type_name) comm) ≡ true
  IsTellable comm other = Unit

  -- What a process ends up with: the profile of its last future, if it has one, else what was there before.
  unfoldable pub last_profile :
      ℕ → List (Future M) → Option (ProfileData M) → Option (ProfileData M)
  last_profile pid [] before = before
  last_profile pid (f ∷ fs) before =
      last_profile pid fs
        (if eqb f.future_pid pid then profile_for f.future_comm f.outcome else before)

  -- What the wait does.
  abbrev pub Waits : List (Future M) → Profiles M → Type 0
  Waits futures before =
      if any_stops futures
      then (wait_for_profiles futures before ≡ err Exn.stop_event_set)
      else ((results : Profiles M) × (wait_for_profiles futures before ≡ ok results)
          × ((pid : ℕ) → fetch eqb pid results ≡ last_profile pid futures (fetch eqb pid before)))

  Waits-step :
      (f : Future M) (fs : List (Future M)) (before : Profiles M) (profile : ProfileData M)
      → is_stop f.outcome ≡ false
      → future_profile f.future_comm f.outcome ≡ ok profile
      → profile_for f.future_comm f.outcome ≡ some profile
      → Waits fs (store eqb f.future_pid profile before)
      → Waits (f ∷ fs) before
  unfolding wait_for_profiles last_profile
  Waits-step f fs before profile goes_on e e' rest = elim (Bool-cases (any_stops fs)) [
    | inl stops ↦
        let rest' : wait_for_profiles fs (store eqb f.future_pid profile before)
            ≡ err Exn.stop_event_set =
          simp stops at rest in
        simp (goes_on, stops, e) rest'
    | inr all_go_on ↦
        let (results, returned, told) = simp all_go_on at rest in
        simp (goes_on, all_go_on, e, e')
          (
            results,
            returned,
            λ pid.
                told pid
                ∙ ap (last_profile pid fs)
                    (fetch-store eqb eqb_iff f.future_pid pid profile before),
          )
  ]

  Waits-outcome :
      (pid : ℕ) (comm : String) (o : Outcome M) (fs : List (Future M)) (before : Profiles M)
      → IsTellable comm o
      → ((profile : ProfileData M) → Waits fs (store eqb pid profile before))
      → Waits (record { future_pid = pid; future_comm = comm; outcome = o } ∷ fs) before
  unfolding future_profile wait_for_profiles
  Waits-outcome pid comm (Outcome.returned profile) fs before h rest =
      Waits-step
        (record { future_pid = pid; future_comm = comm; outcome = Outcome.returned profile }) fs
        before profile refl refl refl (rest profile)
  Waits-outcome pid comm Outcome.stop_event fs before h rest = refl
  Waits-outcome pid comm Outcome.went_down fs before h rest =
      let p = error_of gone comm in
      Waits-step (record { future_pid = pid; future_comm = comm; outcome = Outcome.went_down }) fs
        before p refl (rw (error_stack gone comm h) refl) refl (rest p)
  Waits-outcome pid comm (Outcome.raised type_name) fs before h rest =
      let reason = "exception " ⧺ type_name in
      let p = error_of reason comm in
      Waits-step
        (record { future_pid = pid; future_comm = comm; outcome = Outcome.raised type_name }) fs
        before p refl (rw (error_stack reason comm h) refl) refl (rest p)

  -- If the error stacks of those that fail are told as such by the pattern: where the profiling of some
  -- process is stopped by the stop event, the wait raises that. Else it returns, whatever else is raised,
  -- and each process has the profile of its last future: what that returned, or one sample of an error
  -- stack that says that the process went down, or which exception came. Processes without a future have
  -- what was there before.
  pub wait_for_profiles-last_profile :
      (futures : List (Future M)) (before : Profiles M)
      → All (λ f. IsTellable f.future_comm f.outcome) futures
      → Waits futures before
  unfolding wait_for_profiles last_profile
  wait_for_profiles-last_profile [] before h = (before, refl, λ pid. refl)
  wait_for_profiles-last_profile (f ∷ fs) before h =
      Waits-outcome f.future_pid f.future_comm f.outcome fs before h.0
        (λ profile. wait_for_profiles-last_profile fs (store eqb f.future_pid profile before) h.1)
