-- ===== src/Node/ExitDefaults.antt =====
-- internal/node/exit_defaults.go: when the host's default routes go through the exit. Its functions run
-- in many goroutines at once, and let their locks go between their tests and what they do then. So
-- each critical section is a step, and any steps of other goroutines may come between two of one.
pub mod Balance
mod Tests
use hopscotch.Common.{
  ℕ, zero, suc, ◌+◌, ◌-◌, Bool, true, false, not, ◌&&◌, ◌||◌, Option, none, some, List, [], ◌∷◌,
  ◌++◌, ite, if◌then◌else◌, ltb,
}
use hopscotch.Common.Bytes.{Bytes, same}
use hopscotch.Common.Maps.{lookup}
use hopscotch.Route.{default_route_v4, default_route_v6}
use hopscotch.Node.{Node}
use hopscotch.Node.Routing.{next_hop}
use hopscotch.Node.Overlay.{resolved_exit_ula}

-- tun.InstallDefaultRoutes that succeeded, and a call of the revert that it returned. A revert that
-- fails is logged and not called again.
pub data DefaultsEffect : Type 0 where
  install revert : DefaultsEffect

-- `up` is exitDefaultsRevert != nil. `timer` is exitDefaultsTimer (nil is `none`) and whether it has
-- yet to go off; `loose` counts timers yet to go off that the field no longer points to. `resolving`
-- is exitResolving.
pub record ExitDefaults : Type 0 where
  pub up : Bool
  pub timer : Option Bool
  pub loose : ℕ
  pub resolving : Bool

-- The section that a goroutine comes to next. The tests of the path are those of syncExitHostDefaults
-- or, as the flag says, those of exitPathReady in the function of the timer. `calling` is the call of
-- the revert that clearExitHostDefaultsNow has taken out of the field.
pub data Section : Type 0 where
  test_tun test_ready : Section
  test_default test_ula : Bool → Section
  test_hop : Bool → Bytes → Section
  scheduling : Bool → Section
  resolving looking_up resolved : Section
  canceling ensuring resetting clearing calling : Section

abbrev pub is_some {ℓ} : {A : Type ℓ} → Option A → Bool
is_some none = false
is_some (some a) = true

unfoldable pub has_default_exit_route : Node → Bool
has_default_exit_route n =
    is_some (lookup same default_route_v4 n.routes)
    || is_some (lookup same default_route_v6 n.routes)

-- `works` is whether tun.InstallDefaultRoutes succeeds.
unfoldable pub ensure_exit_host_defaults : Bool → ExitDefaults → ExitDefaults × List DefaultsEffect
ensure_exit_host_defaults works d =
    if d.up
    then (d, [])
    else if works
    then (record d { up = true }, DefaultsEffect.install ∷ [])
    else (d, [])

unfoldable pub schedule_exit_host_defaults_down : ExitDefaults → ExitDefaults
schedule_exit_host_defaults_down d =
    if not d.up then d else elim d.timer [ none ↦ record d { timer = some true } | some armed ↦ d ]

-- Stop holds back a timer that has not gone off yet.
unfoldable pub cancel_exit_host_defaults_down : ExitDefaults → ExitDefaults
cancel_exit_host_defaults_down d = record d { timer = none }

-- clearExitHostDefaultsNow under its lock, and whether a revert is to be called behind it.
unfoldable pub clear_exit_host_defaults_now : ExitDefaults → ExitDefaults × Bool
clear_exit_host_defaults_now d = (record d { timer = none; up = false }, d.up)

-- resolveExitULABackground up to the lookup; whether it goes on.
unfoldable pub begin_resolve : Node → ExitDefaults → ExitDefaults × Bool
begin_resolve n d =
    ite (same n.exit_node []) (d, false)
      (ite (same n.exit_ula [])
        (if d.resolving then (d, false) else (record d { resolving = true }, true)) (d, false))

-- A node, its host defaults, and the goroutines that are on their way.
pub record DefaultsState : Type 0 where
  pub node : Node
  pub defaults : ExitDefaults
  pub sections : List Section

abbrev on_to : Node → ExitDefaults → List Section → DefaultsState × List DefaultsEffect
on_to n d next = (record { node = n; defaults = d; sections = next }, [])

-- Where a goroutine goes that has found no path: the timer's tears the routes down, and a sync
-- schedules that, and may look up the exit.
abbrev no_path : Bool → Bool → Section
no_path of_timer looks = if of_timer then Section.clearing else Section.scheduling looks

abbrev found_path : Bool → List Section
found_path of_timer = if of_timer then [] else Section.canceling ∷ []

abbrev if_goes : Bool → Section → List Section
if_goes goes next = if goes then next ∷ [] else []

-- One section: the new state, with what its goroutine comes to next, and the effects. `works` is
-- whether tun.InstallDefaultRoutes succeeds, and `ip` what ResolveULA gives, where an error and a nil
-- address are `[]`. The deferred end of a resolution may come before the end of its sync here.
unfoldable pub run_section :
    Bool → Bytes → Section → Node → ExitDefaults → DefaultsState × List DefaultsEffect
run_section works ip Section.test_tun n d = on_to n d (
    ite (same n.exit_node []) []
      ((if n.tun then Section.test_default false else Section.clearing) ∷ []))
run_section works ip Section.test_ready n d =
    on_to n d (ite (same n.exit_node []) Section.clearing (Section.test_default true) ∷ [])
run_section works ip (Section.test_default of_timer) n d =
    on_to n d
      ((if has_default_exit_route n then Section.test_ula of_timer else no_path of_timer true) ∷ [])
run_section works ip (Section.test_ula of_timer) n d =
    let (n', exit_ula) = resolved_exit_ula n in
    on_to n' d
      (ite (same exit_ula []) (no_path of_timer true) (Section.test_hop of_timer exit_ula) ∷ [])
run_section works ip (Section.test_hop of_timer exit_ula) n d = on_to n d (
    if is_some (next_hop n exit_ula none) then found_path of_timer else no_path of_timer false ∷ [])
run_section works ip (Section.scheduling looks) n d =
    on_to n (schedule_exit_host_defaults_down d) (if_goes looks Section.resolving)
run_section works ip Section.resolving n d =
    let (d', goes) = begin_resolve n d in on_to n d' (if_goes goes Section.looking_up)
run_section works ip Section.looking_up n d =
    ite (same ip []) (on_to n d (Section.resolved ∷ []))
      (on_to (record n { exit_ula = ip }) d (Section.test_tun ∷ Section.resolved ∷ []))
run_section works ip Section.resolved n d = on_to n (record d { resolving = false }) []
run_section works ip Section.canceling n d =
    on_to n (cancel_exit_host_defaults_down d) (Section.ensuring ∷ [])
run_section works ip Section.ensuring n d =
    let (d', effects) = ensure_exit_host_defaults works d in
    (record { node = n; defaults = d'; sections = [] }, effects)
run_section works ip Section.resetting n d =
    let loose : ℕ = elim d.timer [
      | none ↦ d.loose
      | some armed ↦ if armed then suc d.loose else d.loose
    ] in
    on_to n (record d { timer = none; loose = loose }) (Section.test_ready ∷ [])
run_section works ip Section.clearing n d =
    let (d', taken) = clear_exit_host_defaults_now d in on_to n d' (if_goes taken Section.calling)
run_section works ip Section.calling n d =
    (record { node = n; defaults = d; sections = [] }, DefaultsEffect.revert ∷ [])

-- The section of the goroutine at a place of the list; at no place nothing happens.
unfoldable pub run_at :
    Bool → Bytes → ℕ → List Section → Node → ExitDefaults → DefaultsState × List DefaultsEffect
run_at works ip i [] n d = on_to n d []
run_at works ip zero (s ∷ ss) n d =
    let (st, effects) = run_section works ip s n d in
    (record st { sections = st.sections ++ ss }, effects)
run_at works ip (suc i) (s ∷ ss) n d =
    let (st, effects) = run_at works ip i ss n d in
    (record st { sections = s ∷ st.sections }, effects)

-- A timer that goes off starts its function in a goroutine of its own.
unfoldable pub go_off : DefaultsState → DefaultsState
go_off st = elim st.defaults.timer [
  | none ↦ st
  | some armed ↦
      if armed
      then record st {
        defaults = record st.defaults { timer = some false };
        sections = Section.resetting ∷ st.sections;
      }
      else st
]

unfoldable pub go_off_loose : DefaultsState → DefaultsState
go_off_loose st = elim st.defaults.loose [
  | zero ↦ st
  | suc loose ↦ record st {
    defaults = record st.defaults { loose = loose };
    sections = Section.resetting ∷ st.sections;
  }
]

-- What may happen next. `change` is any change of the node, whose configuration stays; `sync` and
-- `clear` are calls of syncExitHostDefaults and clearExitHostDefaults; `run` is the next section of
-- the goroutine at a place.
pub data DefaultsStep : Type 0 where
  change : Node → DefaultsStep
  sync clear timer_off loose_off : DefaultsStep
  run : Bool → Bytes → ℕ → DefaultsStep

unfoldable pub defaults_step : DefaultsStep → DefaultsState → DefaultsState × List DefaultsEffect
defaults_step (DefaultsStep.change n) st =
    (record st { node = record n { exit_node = st.node.exit_node } }, [])
defaults_step DefaultsStep.sync st = (record st { sections = Section.test_tun ∷ st.sections }, [])
defaults_step DefaultsStep.clear st = (record st { sections = Section.clearing ∷ st.sections }, [])
defaults_step DefaultsStep.timer_off st = (go_off st, [])
defaults_step DefaultsStep.loose_off st = (go_off_loose st, [])
defaults_step (DefaultsStep.run works ip i) st = run_at works ip i st.sections st.node st.defaults

unfoldable pub defaults_steps :
    List DefaultsStep → DefaultsState → DefaultsState × List DefaultsEffect
defaults_steps [] st = (st, [])
defaults_steps (s ∷ ss) st =
    let (st', effects) = defaults_step s st in
    let (st'', rest) = defaults_steps ss st' in (st'', effects ++ rest)
