-- ===== src/Config/Checked.antt =====
-- Which configurations Load accepts, and as what.
use mathlib.Core.Path.{subst}
use hopscotch.Common.{
  ℕ, ◌≡◌, refl, sym, ap, ◌∙◌, ◌⊎◌, ◌↔◌, inl, inr, Bool, true, false, ◌&&◌, ◌||◌, Option, none, some,
  ◌≢◌, List, [], ◌∷◌, if◌then◌else◌, Bool-cases, arith,
}
use hopscotch.Common.Bytes.{Bytes}
use hopscotch.Peers.{Peer, Result}
use hopscotch.Config.Parsed.{ArePeersOf, Result-cases, parse_peers_lem, parse_peers_fine}
use hopscotch.Config.{
  RawFile, File, not_required, no_listen_or_peers, ConfigError, is_empty, parse_peers, resolve,
  gateway_or, file_of, load_peers, load,
}

ok-injective : {E A : Type 0} {a b : A} → Path (Result E A) (Result.ok a) (Result.ok b) → a ≡ b
ok-injective e = cc e

passed :
    {E A : Type 0} (refused : Bool) (why : E) (r : Result E A) (a : A)
    → (if refused then Result.err why else r) ≡ Result.ok a
    → (refused ≡ false) × (r ≡ Result.ok a)
passed true why r a e = absurd (cc e)
passed false why r a e = (refl, e)

module _ (is_abs : Bytes → Bool) (clean_join : Bytes → Bytes) where
  -- What Load tests besides the peers, and what it makes.
  record Made (raw : RawFile) (f : File) : Type 0 where
    peers : List Peer
    parsed : ArePeersOf raw.peers peers
    required :
        (is_empty (resolve is_abs clean_join raw.identity)
          || (is_empty (resolve is_abs clean_join raw.ca)
              || is_empty (resolve is_abs clean_join raw.cert)))
        ≡ false
    some_where : (is_empty raw.listen && is_empty peers) ≡ false
    made : f ≡ file_of is_abs clean_join raw peers

  -- A path as it is used: none, an absolute one as it is, and any other joined to the directory of the
  -- file.
  pub data IsResolved : Bytes → Bytes → Type 0 where
    no_path : IsResolved [] []
    absolute : (p : Bytes) → is_abs p ≡ true → IsResolved p p
    relative :
        (c : ℕ) (cs : Bytes) → is_abs (c ∷ cs) ≡ false → IsResolved (c ∷ cs) (clean_join (c ∷ cs))

  -- The file of a raw one, field by field.
  pub record IsFileOf (raw : RawFile) (f : File) : Type 0 where
    pub identity : IsResolved raw.identity f.identity
    pub ca : IsResolved raw.ca f.ca
    pub cert : IsResolved raw.cert f.cert
    pub control : IsResolved raw.control f.control
    pub listen : f.listen ≡ raw.listen
    pub peers : ArePeersOf raw.peers f.peers
    pub tun : f.tun ≡ raw.tun
    pub userspace : f.userspace ≡ raw.userspace
    pub socks : f.socks ≡ raw.socks
    pub gateway :
        ((raw.gateway ≡ none) × (f.gateway ≡ true))
        ⊎ ((b : Bool) × (raw.gateway ≡ some b) × (f.gateway ≡ b))
    pub exit : f.exit ≡ raw.exit
    pub exit_node : f.exit_node ≡ raw.exit_node

  -- What Load asks for besides.
  pub record IsComplete (f : File) : Type 0 where
    pub identity : f.identity ≢ []
    pub ca : f.ca ≢ []
    pub cert : f.cert ≢ []
    pub some_where : (f.listen ≢ []) ⊎ (f.peers ≢ [])

  resolve-IsResolved : (p : Bytes) → IsResolved p (resolve is_abs clean_join p)
  unfolding resolve
  resolve-IsResolved [] = no_path
  resolve-IsResolved (c ∷ cs) = elim (Bool-cases (is_abs (c ∷ cs))) [
    | inl here ↦ rw (here, resolve) (absolute (c ∷ cs) here)
    | inr there ↦ rw (there, resolve) (relative c cs there)
  ]

  resolve_of_IsResolved : (p q : Bytes) → IsResolved p q → q ≡ resolve is_abs clean_join p
  unfolding resolve
  resolve_of_IsResolved [] [] no_path = refl
  resolve_of_IsResolved p q (absolute p' h) = ground (arith, h)
  resolve_of_IsResolved p q (relative c cs h) = ground (arith, h)

  abbrev pub Accepted : RawFile → File → Type 0
  Accepted raw f = IsFileOf raw f × IsComplete f

  gateway_or_lem :
      (o : Option Bool)
      → ((o ≡ none) × (gateway_or o ≡ true)) ⊎ ((b : Bool) × (o ≡ some b) × (gateway_or o ≡ b))
  gateway_or_lem none = inl (refl, refl)
  gateway_or_lem (some b) = inr (b, refl, refl)

  gateway_or_of :
      (o : Option Bool) (g : Bool)
      → ((o ≡ none) × (g ≡ true)) ⊎ ((b : Bool) × (o ≡ some b) × (g ≡ b))
      → g ≡ gateway_or o
  gateway_or_of o g (inl (e, h)) = h ∙ ap gateway_or (sym e)
  gateway_or_of o g (inr (b, e, h)) = h ∙ ap gateway_or (sym e)

  file_of-IsFileOf :
      (raw : RawFile) (ps : List Peer)
      → ArePeersOf raw.peers ps
      → IsFileOf raw (file_of is_abs clean_join raw ps)
  unfolding file_of
  file_of-IsFileOf raw ps h = record {
    identity = resolve-IsResolved raw.identity;
    ca = resolve-IsResolved raw.ca;
    cert = resolve-IsResolved raw.cert;
    control = resolve-IsResolved raw.control;
    listen = refl;
    peers = h;
    tun = refl;
    userspace = refl;
    socks = refl;
    gateway = gateway_or_lem raw.gateway;
    exit = refl;
    exit_node = refl;
  }

  only_file :
      (raw : RawFile) (f : File) → IsFileOf raw f → f ≡ file_of is_abs clean_join raw f.peers
  unfolding file_of
  only_file raw f h = cc (
    resolve_of_IsResolved _ _ h.identity,
    resolve_of_IsResolved _ _ h.ca,
    resolve_of_IsResolved _ _ h.cert,
    resolve_of_IsResolved _ _ h.control,
    h.listen,
    h.tun,
    h.userspace,
    h.socks,
    gateway_or_of raw.gateway f.gateway h.gateway,
    h.exit,
    h.exit_node,
  )

  filled :
      (a b c : Bytes)
      → (is_empty a || (is_empty b || is_empty c)) ≡ false
      → (a ≢ []) × ((b ≢ []) × (c ≢ []))
  filled [] b c h = absurd (cc h)
  filled (x ∷ a) [] c h = absurd (cc h)
  filled (x ∷ a) (y ∷ b) [] h = absurd (cc h)
  filled (x ∷ a) (y ∷ b) (z ∷ c) h = ((λ e. cc e), ((λ e. cc e), (λ e. cc e)))

  filled_fine :
      (a b c : Bytes)
      → a ≢ []
      → b ≢ []
      → c ≢ []
      → (is_empty a || (is_empty b || is_empty c)) ≡ false
  filled_fine [] b c h k l = absurd (h refl)
  filled_fine (x ∷ a) [] c h k l = absurd (k refl)
  filled_fine (x ∷ a) (y ∷ b) [] h k l = absurd (l refl)
  filled_fine (x ∷ a) (y ∷ b) (z ∷ c) h k l = refl

  somewhere :
      {A B : Type 0} (xs : List A) (ys : List B)
      → (is_empty xs && is_empty ys) ≡ false
      → (xs ≢ []) ⊎ (ys ≢ [])
  somewhere [] [] h = absurd (cc h)
  somewhere [] (y ∷ ys) h = inr (λ e. cc e)
  somewhere (x ∷ xs) ys h = inl (λ e. cc e)

  somewhere_fine :
      {A B : Type 0} (xs : List A) (ys : List B)
      → (xs ≢ []) ⊎ (ys ≢ [])
      → (is_empty xs && is_empty ys) ≡ false
  somewhere_fine [] [] (inl h) = absurd (h refl)
  somewhere_fine [] [] (inr h) = absurd (h refl)
  somewhere_fine [] (y ∷ ys) h = refl
  somewhere_fine (x ∷ xs) ys h = refl

  Made-Accepted : (raw : RawFile) (f : File) → Made raw f → Accepted raw f
  unfolding file_of
  Made-Accepted raw f h =
      let (identity, (ca, cert)) = filled _ _ _ h.required in
      subst (Accepted raw) (sym h.made) (
        file_of-IsFileOf raw h.peers h.parsed,
        record {
          identity = identity;
          ca = ca;
          cert = cert;
          some_where = somewhere raw.listen h.peers h.some_where;
        },
      )

  Accepted-Made : (raw : RawFile) (f : File) → Accepted raw f → Made raw f
  Accepted-Made raw f (h, complete) = record {
    peers = f.peers;
    parsed = h.peers;
    required =
        rw
          (
            sym (resolve_of_IsResolved _ _ h.identity),
            sym (resolve_of_IsResolved _ _ h.ca),
            sym (resolve_of_IsResolved _ _ h.cert),
          )
          (filled_fine f.identity f.ca f.cert complete.identity complete.ca complete.cert);
    some_where = rw (sym h.listen) (somewhere_fine f.listen f.peers complete.some_where);
    made = only_file raw f h;
  }

  not_loaded :
      (raw : RawFile) (f : File) (why : ConfigError)
      → ¬ (load_peers is_abs clean_join raw (Result.err why) ≡ Result.ok f)
  unfolding load_peers
  not_loaded raw f why e = cc e

  load-Made :
      (raw : RawFile) (f : File) → load is_abs clean_join (some raw) ≡ Result.ok f → Made raw f
  unfolding load load_peers
  load-Made raw f e =
      let peers = load_peers is_abs clean_join raw (parse_peers 0 raw.peers) in
      let (required, loaded) = passed _ not_required peers f e in
      elim (Result-cases (parse_peers 0 raw.peers)) [
        | inl (why, bad) ↦
            absurd (not_loaded raw f why (ap (load_peers is_abs clean_join raw) (sym bad) ∙ loaded))
        | inr (ps, parsed) ↦
            let taken : load_peers is_abs clean_join raw (Result.ok ps) ≡ Result.ok f =
              ap (load_peers is_abs clean_join raw) (sym parsed) ∙ loaded in
            let (some_where, made) =
              passed _ no_listen_or_peers (Result.ok (file_of is_abs clean_join raw ps)) f taken in
            record {
              peers = ps;
              parsed = parse_peers_lem 0 raw.peers ps parsed;
              required = required;
              some_where = some_where;
              made = sym (ok-injective made);
            }
      ]

  Made-load :
      (raw : RawFile) (f : File) → Made raw f → load is_abs clean_join (some raw) ≡ Result.ok f
  unfolding load load_peers
  Made-load raw f h =
      rw (h.required, parse_peers_fine 0 raw.peers h.peers h.parsed, load_peers, h.some_where)
        (ap (λ g. Result.ok g) (sym h.made))

  -- Load accepts what the decoder gives exactly if the identity, the CA and the certificate are set,
  -- every peer has an address that parses and a key that parses or none, and there is a peer or an
  -- address to listen on. It then gives the four paths, a relative one joined to the directory of the
  -- file, the peers in their order with the canonical forms of their addresses, a gateway unless it is
  -- turned off, and the other fields as they are.
  pub load_lem :
      (raw : RawFile) (f : File)
      → (load is_abs clean_join (some raw) ≡ Result.ok f) ↔ Accepted raw f
  load_lem raw f = (
    (λ e. Made-Accepted raw f (load-Made raw f e)),
    (λ h. Made-load raw f (Accepted-Made raw f h)),
  )
