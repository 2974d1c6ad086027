-- ===== src/Server/Build/Listens.antt =====
-- Which configurations sqelf/src/server/mod.rs listens with.
use Prim.Native.String.{String}
use mathlib.Core.Path.{subst}
use seq_input_gelf.Common.{◌≡◌, refl, ap, ◌∙◌, ◌⊎◌, inl, inr, List, [], ◌∷◌, Option, none, some}
use seq_input_gelf.Server.Config.{Config, Certificate, Protocol, udp, tcp}
use seq_input_gelf.Server.Build.{
  BuildError, Library, Incoming, datagrams, connections, Result, ok, err, bind_failed, incoming,
  tls_of, tls_config, first_key, and_then, or_err,
}

-- A predicate of what a result gives, if it gives something.
abbrev Gives : {A : Type 0} → (A → Type 0) → Result A → Type 0
Gives Q (ok a) = Q a
Gives Q (err e) = Unit

Gives-and_then :
    {A B : Type 0} (Q : B → Type 0) (r : Result A) (f : A → Result B)
    → ((a : A) → r ≡ ok a → Gives Q (f a))
    → Gives Q (and_then r f)
Gives-and_then Q (ok a) f h = h a refl
Gives-and_then Q (err e) f h = tt

Gives-or_err :
    {A B : Type 0} (Q : B → Type 0) (x : BuildError) (o : Option A) (f : A → Result B)
    → ((a : A) → o ≡ some a → Gives Q (f a))
    → Gives Q (and_then (or_err x o) f)
Gives-or_err Q x none f h = tt
Gives-or_err Q x (some a) f h = h a refl

or_err-Gives :
    {A : Type 0} (Q : A → Type 0) (x : BuildError) (o : Option A)
    → ((a : A) → o ≡ some a → Q a)
    → Gives Q (or_err x o)
or_err-Gives Q x none h = tt
or_err-Gives Q x (some a) h = h a refl

Protocol-cases : (p : Protocol) → (p ≡ udp) ⊎ (p ≡ tcp)
Protocol-cases udp = inl refl
Protocol-cases tcp = inr refl

module _ (L : Library) where
  -- The TLS configuration that a certificate's files give.
  pub record Reads (c : Certificate) (tls : L.Tls) : Type 0 where
    pub reader : L.File
    pub cert : List L.Cert
    pub key_reader : L.File
    pub key : L.Key
    pub keys : List L.Key
    pub opened : L.open_file c.path ≡ some reader
    pub certs : L.certs reader ≡ some cert
    pub key_opened : L.open_file c.private_key_path ≡ some key_reader
    pub first : L.pkcs8_private_keys key_reader ≡ some (key ∷ keys)
    pub single : L.with_single_cert cert key ≡ some tls

  -- There is TLS exactly if there is a certificate.
  unfoldable pub IsTls : Option Certificate → Option L.Tls → Type 0
  IsTls none tls = tls ≡ none
  IsTls (some c) none = ⊥
  IsTls (some c) (some tls) = Reads c tls

  first_key-first :
      (path : String) (keys : List L.Key)
      → Gives (λ key. (rest : List L.Key) × (keys ≡ key ∷ rest)) (first_key L path keys)
  unfolding first_key
  first_key-first path [] = tt
  first_key-first path (key ∷ keys) = (keys, refl)

  tls_config-Reads : (c : Certificate) → Gives (Reads c) (tls_config L c)
  unfolding tls_config
  tls_config-Reads c = Gives-or_err _ _ (L.open_file c.path) _ (λ reader e1.
      Gives-or_err _ _ (L.certs reader) _ (λ cert e2.
        Gives-or_err _ _ (L.open_file c.private_key_path) _ (λ key_reader e3.
          Gives-or_err _ _ (L.pkcs8_private_keys key_reader) _ (λ keys e4.
            Gives-and_then _ (first_key L c.private_key_path keys) _ (λ key e5.
              let (rest, e6) =
                subst (Gives (λ k. (rest : List L.Key) × (keys ≡ k ∷ rest))) e5
                  (first_key-first c.private_key_path keys) in
              or_err-Gives _ _ (L.with_single_cert cert key) (λ tls e7. record {
                reader = reader;
                cert = cert;
                key_reader = key_reader;
                key = key;
                keys = rest;
                opened = e1;
                certs = e2;
                key_opened = e3;
                first = e4 ∙ ap some e6;
                single = e7;
              }))))))

  tls_of-IsTls : (c : Option Certificate) → Gives (IsTls c) (tls_of L c)
  unfolding tls_of IsTls
  tls_of-IsTls none = refl
  tls_of-IsTls (some c) =
      Gives-and_then _ (tls_config L c) _ (λ tls e. subst (Gives (Reads c)) e (tls_config-Reads c))

  -- What a stream that listens has of its configuration.
  unfoldable pub Follows : Config → Incoming L → Type 0
  Follows config (datagrams socket) = (config.bind.protocol ≡ udp) × (config.certificate ≡ none)
  Follows config (connections socket keep_alive max_size_bytes tls) =
      (config.bind.protocol ≡ tcp)
      × (keep_alive ≡ config.tcp_keep_alive_secs)
      × (max_size_bytes ≡ config.tcp_max_size_bytes)
      × IsTls config.certificate tls

  udp-Follows :
      (config : Config) (addr : L.Addr) (c : Option Certificate)
      → config.bind.protocol ≡ udp
      → config.certificate ≡ c
      → Gives (Follows config) (incoming L config addr)
  unfolding incoming Follows
  udp-Follows config addr none p q =
      rw (p, q) (Gives-and_then _ (or_err bind_failed (L.bind_udp addr)) _ (λ s e. (refl, refl)))
  udp-Follows config addr (some c) p q = rw (p, q) tt

  tcp-Follows :
      (config : Config) (addr : L.Addr)
      → config.bind.protocol ≡ tcp
      → Gives (Follows config) (incoming L config addr)
  unfolding incoming Follows
  tcp-Follows config addr p = rw (p) (
      Gives-and_then _ (tls_of L config.certificate) _ (λ tls e.
        Gives-and_then _ (or_err bind_failed (L.bind_tcp addr)) _ (λ s _. (
          refl,
          refl,
          refl,
          subst (Gives (IsTls config.certificate)) e (tls_of-IsTls config.certificate),
        ))))

  -- What listens follows its configuration: datagrams only for UDP without a certificate; and
  -- connections only for TCP, with the limits of the configuration, and with TLS exactly if there is a
  -- certificate: with the certificates of its file and the first of the keys in the file of its key.
  pub incoming-Follows :
      (config : Config) (addr : L.Addr) (i : Incoming L)
      → incoming L config addr ≡ ok i
      → Follows config i
  incoming-Follows config addr i h =
      subst (Gives (Follows config)) h (elim (Protocol-cases config.bind.protocol) [
        | inl p ↦ udp-Follows config addr config.certificate p refl
        | inr p ↦ tcp-Follows config addr p
      ])
