-- ===== src/Node/Peering/Admission.antt =====
-- internal/node/node.go, establish: which peers get a session.
use hopscotch.Common.{
  ◌≡◌, refl, Bool, Option, none, some, List, [], ◌∷◌, ite, arith, ◌⊎◌, inl, inr, Option-cases,
  Bool-cases, ℕ, ◌≢◌,
}
use hopscotch.Common.Bytes.{Bytes, same, codes}
use hopscotch.Session.{Session, session_of}
use hopscotch.Node.{Node, Effect}
use hopscotch.Node.Peering.{Conn, Refusal, admit, new_session, establish, start_session}
use hopscotch.Node.Peering.Newest.{newest_session}

-- The pins that are taken and given back.
abbrev pub pins : List Effect → List Effect
pins [] = []
pins (Effect.retain_pin ip ∷ es) = Effect.retain_pin ip ∷ pins es
pins (Effect.release_pin ip ∷ es) = Effect.release_pin ip ∷ pins es
pins (Effect.send s m ∷ es) = pins es
pins (Effect.send_packet s p ∷ es) = pins es
pins (Effect.queue_packet s p ∷ es) = pins es
pins (Effect.tap_packet p ∷ es) = pins es
pins (Effect.write_tun p ∷ es) = pins es
pins (Effect.inject p ∷ es) = pins es
pins (Effect.hand_over k m ∷ es) = pins es
pins (Effect.sync_exit ∷ es) = pins es
pins (Effect.close_session s ∷ es) = pins es
pins (Effect.refuse why ∷ es) = pins es
pins (Effect.pending_reply s m ∷ es) = pins es

-- Refused, with the node and its pins as they were.
pub record Refused (n : Node) (r : (Node × List Effect) × Option Refusal) : Type 0 where
  pub why : Refusal
  pub refused : r.1 ≡ some why
  pub unchanged : r.0.0 ≡ n
  pub no_pins : pins r.0.1 ≡ []

-- Accepted under the digest of the key: not the node itself, and the key that was expected, if any.
pub record Accepted (digest : Bytes → Bytes) (n : Node) (expect : Bytes) (conn : Conn)
    (r : (Node × List Effect) × Option Refusal) : Type 0 where
  pub key : Bytes
  pub certified : conn.key ≡ some key
  pub accepted : r.1 ≡ none
  pub other : digest key ≢ n.id
  pub expected : (expect ≡ []) ⊎ (key ≡ expect)
  pub session : Session
  pub identity : session.id ≡ digest key
  pub tabled : session_of r.0.0.sessions (digest key) ≡ some session

abbrev pub Outcome :
    (Bytes → Bytes) → Node → Bytes → Conn → (Node × List Effect) × Option Refusal → Type 0
Outcome digest n expect conn r = Refused n r ⊎ Accepted digest n expect conn r

pins-admit :
    (digest : Bytes → Bytes) (n : Node) (expect key : Bytes)
    → pins (admit digest n expect key).1 ≡ []
unfolding admit
pins-admit digest n expect key = ground arith

admit-none :
    (digest : Bytes → Bytes) (n : Node) (expect key : Bytes)
    → (admit digest n expect key).0 ≡ none
    → (digest key ≢ n.id) × ((expect ≡ []) ⊎ (key ≡ expect))
unfolding admit
admit-none digest n [] key h = (ground (arith, h), inl refl)
admit-none digest n (x ∷ expect) key h = (ground (arith, h), inr (ground (arith, h)))

accept :
    (digest : Bytes → Bytes) (n : Node) (expect : Bytes) (conn : Conn) (key : Bytes) (s : Session)
    (effects : List Effect)
    → conn.key ≡ some key
    → (admit digest n expect key).0 ≡ none
    → s.id ≡ digest key
    → Accepted digest n expect conn (((start_session n s).0, effects), none)
accept digest n expect conn key s effects certified ok id =
    let (other, expected) = admit-none digest n expect key ok in
    record {
      key = key;
      certified = certified;
      accepted = refl;
      other = other;
      expected = expected;
      session = s;
      identity = id;
      tabled = newest_session n s (digest key) id;
    }

-- Nothing but effects without pins.
refused_with :
    {digest : Bytes → Bytes} {expect : Bytes} {conn : Conn} (n : Node) (why : Refusal)
    (es : List Effect)
    → pins es ≡ []
    → Outcome digest n expect conn ((n, es), some why)
refused_with n why es h = inl (record { why = why; refused = refl; unchanged = refl; no_pins = h })

id-new_session :
    (digest : Bytes → Bytes) (handle : ℕ) (we_dialed : Bool) (dialed dialed_ip : Bytes)
    (conn : Conn) (key : Bytes) (listen : List Bytes)
    → (new_session digest handle we_dialed dialed dialed_ip conn key listen).id ≡ digest key
unfolding new_session
id-new_session digest handle we_dialed dialed dialed_ip conn key listen = refl

-- A connection either is refused, with the node unchanged and no pin taken or given back, or it was
-- opened with a certificate whose key is not the node's own, and is the expected one if one was
-- expected, and the peer has a session in the table under the digest of its key.
pub establish_lem :
    (digest : Bytes → Bytes) (handle : ℕ) (n : Node) (we_dialed : Bool)
    (expect dialed dialed_ip : Bytes) (conn : Conn)
    → Outcome digest n expect conn
        (establish digest handle n we_dialed expect dialed dialed_ip conn)
unfolding establish
establish_lem digest handle n we_dialed expect dialed dialed_ip conn =
    elim (Bool-cases conn.stream) [
      | inr off ↦ rw (off) (refused_with n Refusal.no_stream [] refl)
      | inl on ↦ elim (Option-cases conn.key) [
        | inl e ↦ rw (on, e) (refused_with n Refusal.no_key [] refl)
        | inr (key, certified) ↦ elim (Option-cases (admit digest n expect key).0) [
          | inr (why, e) ↦
              rw (on, certified, e)
                (refused_with n why (admit digest n expect key).1 (pins-admit digest n expect key))
          | inl ok ↦ elim (Bool-cases conn.wrote) [
            | inr e ↦ rw (on, certified, ok, e) (refused_with n Refusal.not_written [] refl)
            | inl wrote ↦ elim (Option-cases conn.first) [
              | inl e ↦ rw (on, certified, ok, wrote, e) (refused_with n Refusal.not_read [] refl)
              | inr ((kind, hello), first) ↦
                  elim (Option-cases (ite (same kind (codes "hello")) hello none)) [
                    | inl e ↦
                        rw (on, certified, ok, wrote, first, e)
                          (refused_with n Refusal.no_hello [] refl)
                    | inr (listen, e) ↦
                        rw (on, certified, ok, wrote, first, e)
                          (inr (
                            accept digest n expect _ key _ _ refl ok (
                              id-new_session digest handle we_dialed dialed dialed_ip conn key
                                listen)))
                  ]
            ]
          ]
        ]
      ]
    ]
