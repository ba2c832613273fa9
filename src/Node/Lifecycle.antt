-- ===== src/Node/Lifecycle.antt =====
-- internal/node/node.go, stack.go and socks.go: what Start opens, and what Close closes. Goroutines,
-- sessions, host defaults and pins are left out, and the DNS socket of macOS; so is the HTTP server,
-- which closes itself when the node's context ends, but for whether it starts. Whether each call works
-- is an argument.
pub mod Leaks
mod Tests
use hopscotch.Common.{
  ℕ, ◌+◌, Bool, true, false, not, ◌&&◌, ◌||◌, List, [], ◌∷◌, ◌++◌, ◌==◌, leb, if◌then◌else◌,
}

pub data Resource : Type 0 where
  socks_listener stack tun control nat quic_listener transport mux : Resource
  listener : ℕ → Resource

pub data Event : Type 0 where
  opened closed : Resource → Event

-- The resources that the fields of the node hold, and the calls so far, the oldest first.
pub record Life : Type 0 where
  pub held : List Resource
  pub events : List Event

-- The place of a field in Close.
unfoldable pub field : Resource → ℕ
field socks_listener = 0
field stack = 1
field tun = 2
field control = 3
field nat = 4
field quic_listener = 5
field transport = 6
field mux = 7
field (listener i) = 8

-- What a field holds.
unfoldable pub held_by : ℕ → List Resource → List Resource
held_by c [] = []
held_by c (r ∷ rs) = let rest = held_by c rs in if field r == c then r ∷ rest else rest

unfoldable pub in_close_order : List Resource → List Resource
in_close_order held =
    held_by 0 held
    ++ (held_by 1 held
        ++ (held_by 2 held
            ++ (held_by 3 held
                ++ (held_by 4 held
                    ++ (held_by 5 held
                        ++ (held_by 6 held ++ (held_by 7 held ++ held_by 8 held)))))))

abbrev pub all_closed : List Resource → List Event
all_closed [] = []
all_closed (r ∷ rs) = closed r ∷ all_closed rs

-- Close. The fields of the listeners, of the transport and of the mux are not reset.
unfoldable pub close : Life → Life
close l = record {
  held = held_by 5 l.held ++ (held_by 6 l.held ++ (held_by 7 l.held ++ held_by 8 l.held));
  events = l.events ++ all_closed (in_close_order l.held);
}

abbrev pub put : Resource → Life → Life
put r l = record { held = l.held ++ (r ∷ []); events = l.events ++ (opened r ∷ []) }

-- One part of Start, and whether it works.
abbrev pub Stage : Type 0
Stage = Life → Life × Bool

abbrev pub open_if : Bool → Resource → Stage
open_if works r l = if works then (put r l, true) else (l, false)

-- What comes of a listener: NewListener fails, or its Start, or neither.
pub data Listening : Type 0 where
  not_made not_started started : Listening

unfoldable pub listen : ℕ → Listening → Stage
listen i not_made l = (l, false)
listen i not_started l =
    (record l { events = l.events ++ (opened (listener i) ∷ closed (listener i) ∷ []) }, false)
listen i started l = (put (listener i) l, true)

pub record Plan : Type 0 where
  pub listeners : List Listening
  pub quic_works : Bool
  pub has_control : Bool
  pub control_works : Bool
  pub has_tun : Bool
  pub gateway : Bool
  pub tun_works : Bool
  pub exit : Bool
  pub nat_works : Bool
  pub userspace : Bool
  pub stack_works : Bool
  pub has_socks : Bool
  pub socks_works : Bool
  pub has_http : Bool
  pub http_works : Bool

-- The end of startTun, for an exit: without NAT, the device is closed and the field reset.
unfoldable pub start_nat : Bool → Life → Life → Life × Bool
start_nat works before l =
    if works
    then (put nat l, true)
    else (record { held = before.held; events = l.events ++ (closed tun ∷ []) }, false)

unfoldable pub start_tun : Plan → Stage
start_tun p l =
    if not p.gateway
    then (l, true)
    else if not p.tun_works
    then (l, false)
    else if p.exit
    then start_nat p.nat_works l (put tun l)
    else (put tun l, true)

abbrev pub has_stack : List Resource → Bool
has_stack [] = false
has_stack (r ∷ rs) = (field r == 1) || has_stack rs

unfoldable pub start_userspace : Plan → Stage
start_userspace p l = if has_stack l.held then (l, true) else open_if p.stack_works stack l

unfoldable pub start_socks : Plan → Stage
start_socks p l =
    let (l', ready) = start_userspace p l in
    if ready then open_if p.socks_works socks_listener l' else (l', false)

unfoldable pub start_http : Plan → Stage
start_http p l =
    let (l', ready) = start_userspace p l in if ready then (l', p.http_works) else (l', false)

abbrev pub when : Bool → Stage → Stage
when wanted stage l = if wanted then stage l else (l, true)

abbrev pub listen_stages : ℕ → List Listening → List Stage
listen_stages i [] = []
listen_stages i (x ∷ xs) = listen i x ∷ listen_stages (i + 1) xs

abbrev pub is_empty : List Listening → Bool
is_empty [] = true
is_empty (x ∷ xs) = false

unfoldable pub stages : Plan → List Stage
stages p =
    listen_stages 0 p.listeners
    ++ (when (not (is_empty p.listeners)) (open_if p.quic_works quic_listener)
        ∷ when p.has_control (open_if p.control_works control)
        ∷ when p.has_tun (start_tun p)
        ∷ when (p.userspace || (p.has_socks || p.has_http)) (start_userspace p)
        ∷ when p.has_socks (start_socks p)
        ∷ when p.has_http (start_http p)
        ∷ [])

-- n.Close() behind each part that fails.
unfoldable pub run_stages : List Stage → Life → Life × Bool
run_stages [] l = (l, true)
run_stages (s ∷ ss) l =
    let (l', works) = s l in
    let rest = run_stages ss l' in if works then rest else (close l', false)

unfoldable pub start : Plan → Life × Bool
start p = run_stages (stages p) (put transport (put mux (record { held = []; events = [] })))
