-- ===== src/Node/ExitDefaults/Tests.antt =====
-- Runs of the host's default routes, and the theorems at concrete inputs.
use hopscotch.Common.{◌≡◌, refl, true, false, none, List, [], ◌∷◌, ◌++◌, ℕ_discrete}
use hopscotch.Common.Bytes.{codes, same}
use hopscotch.Common.Int.{pos}
use hopscotch.Common.Maps.{lookup}
use hopscotch.Ip.{ip_string, ip_equal}
use hopscotch.Identity.Address.{ula}
use hopscotch.Identity.Names
use hopscotch.Session.{session_of, session_by_name}
use hopscotch.Route.{fresh, default_route_v6}
use hopscotch.Node.{Node}
use hopscotch.Node.Routing.{next_hop, route_next_hop}
use hopscotch.Node.Overlay.{resolved_exit_ula, overlay_ip}
use hopscotch.Node.ExitDefaults.{
  DefaultsEffect, DefaultsState, DefaultsStep, defaults_steps, defaults_step, run_section, run_at,
  has_default_exit_route, ensure_exit_host_defaults, schedule_exit_host_defaults_down,
  cancel_exit_host_defaults_down, clear_exit_host_defaults_now, begin_resolve, go_off, go_off_loose,
}
use hopscotch.Node.ExitDefaults.Balance.{Balanced, defaults_steps-Balanced}
use hopscotch.Node.Tests.{b, node_a, text_b}

-- `a` uses the exit `b`, which advertises a default route.
abbrev user : Node
user = record node_a {
  exit_node = codes "b";
  tun = true;
  routes = (text_b, fresh b (pos 1)) ∷ (default_route_v6, fresh b (pos 1)) ∷ [];
}

abbrev cut_off : Node
cut_off = record user { routes = [] }

abbrev start : DefaultsState
start = record {
  node = user;
  defaults = record { up = false; timer = none; loose = 0; resolving = false };
  sections = [];
}

-- What a run computes with.
runs : Unit {0}
unfolding defaults_steps defaults_step run_section run_at has_default_exit_route
    ensure_exit_host_defaults schedule_exit_host_defaults_down cancel_exit_host_defaults_down
    clear_exit_host_defaults_now begin_resolve go_off go_off_loose lookup ip_string ip_equal ula
    next_hop route_next_hop resolved_exit_ula overlay_ip session_of session_by_name Names.parse_name
    Names.to_lower Names.trim_space same ℕ_discrete
runs = tt

-- The next section of the goroutine that started last, where the routes can be installed.
abbrev next : DefaultsStep
next = DefaultsStep.run true [] 0

-- A sync that finds a path, to the end.
abbrev sync_up : List DefaultsStep
sync_up = DefaultsStep.sync ∷ next ∷ next ∷ next ∷ next ∷ next ∷ next ∷ []

-- A sync that finds no default route, up to the teardown that it schedules and its lookup.
abbrev sync_down : List DefaultsStep
sync_down = DefaultsStep.sync ∷ next ∷ next ∷ next ∷ []

-- The timer that goes off, up to its tests, which fail.
abbrev lost : List DefaultsStep
lost =
    sync_up
    ++ (DefaultsStep.change cut_off
        ∷ (sync_down ++ (DefaultsStep.timer_off ∷ next ∷ next ∷ next ∷ [])))

-- The routes come up, and go down when the grace of a lost path is over.
up_and_down :
    (defaults_steps (lost ++ (next ∷ next ∷ [])) start).1
    ≡ DefaultsEffect.install ∷ DefaultsEffect.revert ∷ []
unfolding runs
up_and_down = refl

-- A blip within the grace changes nothing.
blip :
    (defaults_steps
      (sync_up
        ++ (DefaultsStep.change cut_off ∷ (sync_down ++ (DefaultsStep.change user ∷ sync_up))))
      start).1
    ≡ DefaultsEffect.install ∷ []
unfolding runs
blip = refl

-- A path that comes back, with its sync, between the test of the timer's function and its teardown:
-- the routes go down with the path there.
torn_down_ready :
    (defaults_steps
      (lost
        ++ (DefaultsStep.change user
            ∷ (sync_up ++ (DefaultsStep.run true [] 0 ∷ DefaultsStep.run true [] 0 ∷ []))))
      start).1
    ≡ DefaultsEffect.install ∷ DefaultsEffect.revert ∷ []
unfolding runs
torn_down_ready = refl

-- An install between the section of a teardown and the call of its revert, which then removes the
-- routes of the new install: the routes are down, and taken to be up.
abbrev deleted : DefaultsState × List DefaultsEffect
deleted = defaults_steps (sync_up ++ (DefaultsStep.clear ∷ next ∷ (sync_up ++ (next ∷ [])))) start

late_revert :
    deleted.1 ≡ DefaultsEffect.install ∷ DefaultsEffect.install ∷ DefaultsEffect.revert ∷ []
unfolding runs
late_revert = refl

late_revert_up : deleted.0.defaults.up ≡ true
unfolding runs
late_revert_up = refl

defaults_steps-Balanced_example : Balanced start (defaults_steps lost start)
defaults_steps-Balanced_example = defaults_steps-Balanced lost start
