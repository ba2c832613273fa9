-- ===== src/Node/Lifecycle/Tests.antt =====
-- An exit whose NAT fails, and the theorem on it.
use hopscotch.Common.{◌≡◌, refl, true, false, [], ◌∷◌}
use hopscotch.Node.Lifecycle.{
  listener, tun, control, quic_listener, transport, mux, opened, closed, Listening, Plan, field,
  held_by, in_close_order, close, listen, start_nat, start_tun, start_userspace, start_socks,
  start_http, stages, run_stages, start,
}
use hopscotch.Node.Lifecycle.Leaks.{Tidy, start-Tidy}

abbrev an_exit : Plan
an_exit = record {
  listeners = Listening.started ∷ [];
  quic_works = true;
  has_control = true;
  control_works = true;
  has_tun = true;
  gateway = true;
  tun_works = true;
  exit = true;
  nat_works = false;
  userspace = true;
  stack_works = true;
  has_socks = false;
  socks_works = true;
  has_http = false;
  http_works = true;
}

runs : Unit {0}
unfolding field held_by in_close_order close listen start_nat start_tun start_userspace start_socks
    start_http stages run_stages start
runs = tt

refused : (start an_exit).1 ≡ false
unfolding runs
refused = refl

events :
    (start an_exit).0.events
    ≡ opened mux
      ∷ opened transport
      ∷ opened (listener 0)
      ∷ opened quic_listener
      ∷ opened control
      ∷ opened tun
      ∷ closed tun
      ∷ closed control
      ∷ closed quic_listener
      ∷ closed transport
      ∷ closed mux
      ∷ closed (listener 0)
      ∷ []
unfolding runs
events = refl

start-Tidy_example : Tidy (start an_exit)
start-Tidy_example = start-Tidy an_exit
