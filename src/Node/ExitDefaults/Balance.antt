-- ===== src/Node/ExitDefaults/Balance.antt =====
-- The host's default routes are reverted as often as they were installed.
use hopscotch.Common.{ℕ, zero, suc, ◌+◌, ◌≡◌, refl, Bool, List, [], ◌∷◌, ◌++◌, arith, if◌then◌else◌}
use hopscotch.Common.Bytes.{Bytes}
use hopscotch.Node.{Node}
use hopscotch.Node.ExitDefaults.{
  DefaultsEffect, ExitDefaults, Section, schedule_exit_host_defaults_down,
  ensure_exit_host_defaults, cancel_exit_host_defaults_down, clear_exit_host_defaults_now,
  begin_resolve, DefaultsState, run_section, run_at, go_off, go_off_loose, DefaultsStep,
  defaults_step, defaults_steps,
}

-- How often the routes were installed, and how often removed.
abbrev pub installs : List DefaultsEffect → ℕ
installs [] = 0
installs (DefaultsEffect.install ∷ es) = suc (installs es)
installs (DefaultsEffect.revert ∷ es) = installs es

abbrev pub reverts : List DefaultsEffect → ℕ
reverts [] = 0
reverts (DefaultsEffect.install ∷ es) = reverts es
reverts (DefaultsEffect.revert ∷ es) = suc (reverts es)

abbrev pub count : Bool → ℕ
count b = if b then 1 else 0

-- The reverts that wait for their call.
abbrev pub waiting : List Section → ℕ
waiting [] = 0
waiting (s ∷ ss) = elim s [ Section.calling ↦ suc (waiting ss) | _ ↦ waiting ss ]

-- The reverts that are there: that of the field, and those taken out of it.
abbrev pub held : DefaultsState → ℕ
held st = count st.defaults.up + waiting st.sections

abbrev pub Balanced : DefaultsState → DefaultsState × List DefaultsEffect → Type 0
Balanced st r = installs r.1 + held st ≡ reverts r.1 + held r.0

installs-append : (es fs : List DefaultsEffect) → installs (es ++ fs) ≡ installs es + installs fs
installs-append [] fs = omega arith
installs-append (DefaultsEffect.install ∷ es) fs = omega (arith, installs-append es fs)
installs-append (DefaultsEffect.revert ∷ es) fs = installs-append es fs

reverts-append : (es fs : List DefaultsEffect) → reverts (es ++ fs) ≡ reverts es + reverts fs
reverts-append [] fs = omega arith
reverts-append (DefaultsEffect.install ∷ es) fs = reverts-append es fs
reverts-append (DefaultsEffect.revert ∷ es) fs = omega (arith, reverts-append es fs)

waiting-append : (ss ts : List Section) → waiting (ss ++ ts) ≡ waiting ss + waiting ts
waiting-append [] ts = omega arith
waiting-append (s ∷ ss) ts = ground (arith, waiting-append ss ts)

run_section-Balanced :
    (works : Bool) (ip : Bytes) (s : Section) (n : Node) (d : ExitDefaults)
    → Balanced (record { node = n; defaults = d; sections = s ∷ [] }) (run_section works ip s n d)
unfolding run_section schedule_exit_host_defaults_down ensure_exit_host_defaults
    cancel_exit_host_defaults_down clear_exit_host_defaults_now begin_resolve
run_section-Balanced works ip Section.test_tun n d = ground arith
run_section-Balanced works ip Section.test_ready n d = ground arith
run_section-Balanced works ip (Section.test_default t) n d = ground arith
run_section-Balanced works ip (Section.test_ula t) n d = ground arith
run_section-Balanced works ip (Section.test_hop t a) n d = ground arith
run_section-Balanced works ip (Section.scheduling looks) n d = ground arith
run_section-Balanced works ip Section.resolving n d = ground arith
run_section-Balanced works ip Section.looking_up n d = ground arith
run_section-Balanced works ip Section.resolved n d = refl
run_section-Balanced works ip Section.canceling n d = refl
run_section-Balanced works ip Section.ensuring n d = ground arith
run_section-Balanced works ip Section.resetting n d = refl
run_section-Balanced works ip Section.clearing n d = ground arith
run_section-Balanced works ip Section.calling n d = omega arith

waiting-cons : (s : Section) (ss : List Section) → waiting (s ∷ ss) ≡ waiting (s ∷ []) + waiting ss
waiting-cons s ss = waiting-append (s ∷ []) ss

run_at-Balanced :
    (works : Bool) (ip : Bytes) (i : ℕ) (ss : List Section) (n : Node) (d : ExitDefaults)
    → Balanced (record { node = n; defaults = d; sections = ss }) (run_at works ip i ss n d)
unfolding run_at
run_at-Balanced works ip i [] n d = refl
run_at-Balanced works ip zero (s ∷ ss) n d = omega (
  arith,
  run_section-Balanced works ip s n d,
  waiting-append (run_section works ip s n d).0.sections ss,
  waiting-cons s ss,
)
run_at-Balanced works ip (suc i) (s ∷ ss) n d = omega (
  arith,
  run_at-Balanced works ip i ss n d,
  waiting-cons s ss,
  waiting-cons s (run_at works ip i ss n d).0.sections,
)

held-go_off : (st : DefaultsState) → held (go_off st) ≡ held st
unfolding go_off
held-go_off st = ground arith

held-go_off_loose : (st : DefaultsState) → held (go_off_loose st) ≡ held st
unfolding go_off_loose
held-go_off_loose st = ground arith

defaults_step-Balanced :
    (step : DefaultsStep) (st : DefaultsState) → Balanced st (defaults_step step st)
unfolding defaults_step
defaults_step-Balanced (DefaultsStep.change n) st = refl
defaults_step-Balanced DefaultsStep.sync st = refl
defaults_step-Balanced DefaultsStep.clear st = refl
defaults_step-Balanced DefaultsStep.timer_off st = omega (arith, held-go_off st)
defaults_step-Balanced DefaultsStep.loose_off st = omega (arith, held-go_off_loose st)
defaults_step-Balanced (DefaultsStep.run works ip i) st =
    run_at-Balanced works ip i st.sections st.node st.defaults

-- However the sections of the syncs, the teardowns, the lookups and the timers of many goroutines
-- follow one another, the reverts of the host's default routes balance: those that were held at the
-- start and those that installs gave are as many as those that were called and those that are held at
-- the end, in the field or by a goroutine that is about to call one.
pub defaults_steps-Balanced :
    (steps : List DefaultsStep) (st : DefaultsState) → Balanced st (defaults_steps steps st)
unfolding defaults_steps
defaults_steps-Balanced [] st = refl
defaults_steps-Balanced (s ∷ ss) st = omega (
  arith,
  defaults_step-Balanced s st,
  defaults_steps-Balanced ss (defaults_step s st).0,
  installs-append (defaults_step s st).1 (defaults_steps ss (defaults_step s st).0).1,
  reverts-append (defaults_step s st).1 (defaults_steps ss (defaults_step s st).0).1,
)
