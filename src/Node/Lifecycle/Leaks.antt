-- ===== src/Node/Lifecycle/Leaks.antt =====
-- What Start opens is closed once, when it fails, and otherwise when Close is called.
use hopscotch.Common.{
  ℕ, ◌+◌, ◌≡◌, ◌≤◌, refl, Bool, true, false, not, ◌&&◌, ◌||◌, List, [], ◌∷◌, ◌++◌, ◌==◌,
  if◌then◌else◌, arith, All, All-append,
}
use hopscotch.Node.Lifecycle.{
  Resource, listener, tun, nat, stack, control, quic_listener, socks_listener, transport, mux,
  is_empty, Event, opened, closed, Life, field, held_by, in_close_order, all_closed, close, put,
  Stage, open_if, Listening, listen, Plan, start_nat, start_tun, has_stack, start_userspace,
  start_socks, start_http, when, listen_stages, stages, run_stages, start,
}

abbrev index : Resource → ℕ
index (listener i) = i
index r = 0

abbrev is_same : Resource → Resource → Bool
is_same r q = (field r == field q) && (index r == index q)

abbrev one_if : Bool → ℕ
one_if true = 1
one_if false = 0

-- How often a resource is held, and how often it was opened and closed.
abbrev pub count : Resource → List Resource → ℕ
count r [] = 0
count r (q ∷ qs) = one_if (is_same r q) + count r qs

abbrev pub opens : Resource → List Event → ℕ
opens r [] = 0
opens r (opened q ∷ es) = one_if (is_same r q) + opens r es
opens r (closed q ∷ es) = opens r es

abbrev pub closes : Resource → List Event → ℕ
closes r [] = 0
closes r (opened q ∷ es) = closes r es
closes r (closed q ∷ es) = one_if (is_same r q) + closes r es

count-append : (r : Resource) (xs ys : List Resource) → count r (xs ++ ys) ≡ count r xs + count r ys
count-append r [] ys = omega arith
count-append r (x ∷ xs) ys = omega (arith, count-append r xs ys)

opens-append : (r : Resource) (xs ys : List Event) → opens r (xs ++ ys) ≡ opens r xs + opens r ys
opens-append r [] ys = omega arith
opens-append r (opened q ∷ xs) ys = omega (arith, opens-append r xs ys)
opens-append r (closed q ∷ xs) ys = opens-append r xs ys

closes-append :
    (r : Resource) (xs ys : List Event) → closes r (xs ++ ys) ≡ closes r xs + closes r ys
closes-append r [] ys = omega arith
closes-append r (closed q ∷ xs) ys = omega (arith, closes-append r xs ys)
closes-append r (opened q ∷ xs) ys = closes-append r xs ys

closes-all_closed : (r : Resource) (xs : List Resource) → closes r (all_closed xs) ≡ count r xs
closes-all_closed r [] = refl
closes-all_closed r (x ∷ xs) = omega (arith, closes-all_closed r xs)

opens-all_closed : (r : Resource) (xs : List Resource) → opens r (all_closed xs) ≡ 0
opens-all_closed r [] = refl
opens-all_closed r (x ∷ xs) = opens-all_closed r xs

count-held_by :
    (r : Resource) (c : ℕ) (held : List Resource)
    → count r (held_by c held) ≡ (if field r == c then count r held else 0)
unfolding held_by
count-held_by r c [] = ground arith
count-held_by r c (q ∷ qs) = ground (arith, count-held_by r c qs)

field_le : (r : Resource) → field r ≤ 8
unfolding field
field_le r = ground arith

count-in_close_order :
    (r : Resource) (held : List Resource) → count r (in_close_order held) ≡ count r held
unfolding in_close_order
count-in_close_order r held = simp (count-append, count-held_by) (ground (arith, field_le r))

-- What was opened is closed, or held.
abbrev IsBalanced : Life → Type 0
IsBalanced l = (r : Resource) → opens r l.events ≡ closes r l.events + count r l.held

-- What was opened is closed, as often.
abbrev pub AllClosed : Life → Type 0
AllClosed l = (r : Resource) → opens r l.events ≡ closes r l.events

close-AllClosed : (l : Life) → IsBalanced l → AllClosed (close l)
unfolding close
close-AllClosed l h r = omega (
  arith,
  h r,
  opens-append r l.events (all_closed (in_close_order l.held)),
  closes-append r l.events (all_closed (in_close_order l.held)),
  opens-all_closed r (in_close_order l.held),
  closes-all_closed r (in_close_order l.held),
  count-in_close_order r l.held,
)

put-IsBalanced : (q : Resource) (l : Life) → IsBalanced l → IsBalanced (put q l)
put-IsBalanced q l h r = omega (
  arith,
  h r,
  opens-append r l.events (opened q ∷ []),
  closes-append r l.events (opened q ∷ []),
  count-append r l.held (q ∷ []),
)

-- A part of Start keeps the balance.
abbrev Keeps : Stage → Type 0
Keeps s = (l : Life) → IsBalanced l → IsBalanced (s l).0

open_if-Keeps : (works : Bool) (q : Resource) → Keeps (open_if works q)
open_if-Keeps true q l h = put-IsBalanced q l h
open_if-Keeps false q l h = h

when-Keeps : (wanted : Bool) (s : Stage) → Keeps s → Keeps (when wanted s)
when-Keeps true s k l h = k l h
when-Keeps false s k l h = h

listen-Keeps : (i : ℕ) (x : Listening) → Keeps (listen i x)
unfolding listen
listen-Keeps i Listening.not_made l h r = h r
listen-Keeps i Listening.not_started l h r = omega (
  arith,
  h r,
  opens-append r l.events (opened (listener i) ∷ closed (listener i) ∷ []),
  closes-append r l.events (opened (listener i) ∷ closed (listener i) ∷ []),
)
listen-Keeps i Listening.started l h r = put-IsBalanced (listener i) l h r

start_nat-IsBalanced :
    (works : Bool) (l : Life) → IsBalanced l → IsBalanced (start_nat works l (put tun l)).0
unfolding start_nat
start_nat-IsBalanced true l h r = put-IsBalanced nat (put tun l) (put-IsBalanced tun l h) r
start_nat-IsBalanced false l h r = omega (
  arith,
  h r,
  opens-append r l.events (opened tun ∷ []),
  closes-append r l.events (opened tun ∷ []),
  opens-append r (l.events ++ (opened tun ∷ [])) (closed tun ∷ []),
  closes-append r (l.events ++ (opened tun ∷ [])) (closed tun ∷ []),
)

choose-IsBalanced :
    (b : Bool) (x y : Life × Bool)
    → IsBalanced x.0
    → IsBalanced y.0
    → IsBalanced (if b then x else y).0
choose-IsBalanced true x y h k = h
choose-IsBalanced false x y h k = k

start_tun-Keeps : (p : Plan) → Keeps (start_tun p)
unfolding start_tun
start_tun-Keeps p l h = choose-IsBalanced (not p.gateway) _ _ h (
    choose-IsBalanced (not p.tun_works) _ _ h (
      choose-IsBalanced p.exit _ _ (start_nat-IsBalanced p.nat_works l h) (put-IsBalanced tun l h)))

start_userspace-Keeps : (p : Plan) → Keeps (start_userspace p)
unfolding start_userspace
start_userspace-Keeps p l h =
    choose-IsBalanced (has_stack l.held) _ _ h (open_if-Keeps p.stack_works stack l h)

start_socks-Keeps : (p : Plan) → Keeps (start_socks p)
unfolding start_socks
start_socks-Keeps p l h =
    let ready = start_userspace-Keeps p l h in
    choose-IsBalanced (start_userspace p l).1 _ _
      (open_if-Keeps p.socks_works socks_listener (start_userspace p l).0 ready) ready

start_http-Keeps : (p : Plan) → Keeps (start_http p)
unfolding start_http
start_http-Keeps p l h =
    let ready = start_userspace-Keeps p l h in
    choose-IsBalanced (start_userspace p l).1 _ _ ready ready

listen_stages-Keeps : (i : ℕ) (xs : List Listening) → All Keeps (listen_stages i xs)
listen_stages-Keeps i [] = tt
listen_stages-Keeps i (x ∷ xs) = (listen-Keeps i x, listen_stages-Keeps (i + 1) xs)

stages-Keeps : (p : Plan) → All Keeps (stages p)
unfolding stages
stages-Keeps p =
    All-append Keeps (listen_stages 0 p.listeners) _ (listen_stages-Keeps 0 p.listeners) (
      when-Keeps (not (is_empty p.listeners)) (open_if p.quic_works quic_listener)
          (open_if-Keeps p.quic_works quic_listener),
      (
        when-Keeps p.has_control (open_if p.control_works control)
            (open_if-Keeps p.control_works control),
        (
          when-Keeps p.has_tun (start_tun p) (start_tun-Keeps p),
          (
            when-Keeps (p.userspace || (p.has_socks || p.has_http)) (start_userspace p)
                (start_userspace-Keeps p),
            (
              when-Keeps p.has_socks (start_socks p) (start_socks-Keeps p),
              (when-Keeps p.has_http (start_http p) (start_http-Keeps p), tt),
            ),
          ),
        ),
      ),
    )

-- What Start leaves: a node whose resources Close closes, or one that has closed them.
abbrev pub Tidy : Life × Bool → Type 0
Tidy (l, true) = AllClosed (close l)
Tidy (l, false) = AllClosed l

after_stage :
    (works : Bool) (l : Life) (rest : Life × Bool)
    → IsBalanced l
    → Tidy rest
    → Tidy (if works then rest else (close l, false))
after_stage true l rest h k = k
after_stage false l rest h k = close-AllClosed l h

run_stages-Tidy :
    (ss : List Stage) (l : Life) → All Keeps ss → IsBalanced l → Tidy (run_stages ss l)
unfolding run_stages
run_stages-Tidy [] l k h = close-AllClosed l h
run_stages-Tidy (s ∷ ss) l k h =
    after_stage (s l).1 (s l).0 (run_stages ss (s l).0) (k.0 l h)
      (run_stages-Tidy ss (s l).0 k.1 (k.0 l h))

-- Whatever fails in Start: what it opened is closed again, each resource as often as it was opened, by
-- the time it returns its error. When it returns none, the same holds after Close.
pub start-Tidy : (p : Plan) → Tidy (start p)
unfolding start
start-Tidy p =
    let none_yet : Life = record { held = []; events = [] } in
    run_stages-Tidy (stages p) _ (stages-Keeps p)
      (put-IsBalanced transport (put mux none_yet) (put-IsBalanced mux none_yet (λ r. refl)))
