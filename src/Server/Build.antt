-- ===== src/Server/Build.antt =====
-- `build` and `run` of sqelf/src/server/mod.rs: what is checked before the server listens. The library
-- functions that read addresses, sockets, files and certificates are a parameter.
pub mod Listens
use Prim.Native.String.{String}
use seq_input_gelf.Common.{ℕ, Bool, true, false, List, [], ◌∷◌, Option, none, some}
use seq_input_gelf.Server.Config.{Config, Certificate, Protocol, udp, tcp}

-- The errors, with one of this module for each `bail!` and one for each `?` on a library function.
pub data BuildError : Type 0 where
  -- `parse` of the address
  bad_address : BuildError
  -- "TLS is not supported when the protocol is UDP"
  tls_over_udp : BuildError
  bind_failed : BuildError
  open_failed : String → BuildError
  pem_failed : String → BuildError
  -- "The file `{}` used for the certificate private key doesn't contain any PKCS8 keys"
  no_keys : String → BuildError
  bad_certificate : BuildError

pub data Result {ℓ} (A : Type ℓ) : Type ℓ where
  ok : A → Result A
  err : BuildError → Result A

abbrev pub and_then {ℓ κ} : {A : Type ℓ} {B : Type κ} → Result A → (A → Result B) → Result B
and_then (err e) f = err e
and_then (ok a) f = f a

-- `?` on a result of a library.
abbrev pub or_err {ℓ} : {A : Type ℓ} → BuildError → Option A → Result A
or_err e none = err e
or_err e (some a) = ok a

-- What the code calls: `str::parse` for a `SocketAddr`, `bind` of a socket for each protocol,
-- `File::open`, `rustls_pemfile::certs`, `pkcs8_private_keys` and `with_single_cert`.
pub record Library : Type 1 where
  pub Addr : Type 0
  pub Socket : Type 0
  pub File : Type 0
  pub Cert : Type 0
  pub Key : Type 0
  pub Tls : Type 0
  pub parse : String → Option Addr
  pub bind_udp : Addr → Option Socket
  pub bind_tcp : Addr → Option Socket
  pub open_file : String → Option File
  pub certs : File → Option (List Cert)
  pub pkcs8_private_keys : File → Option (List Key)
  pub with_single_cert : List Cert → Key → Option Tls

module _ (L : Library) where
  -- The stream of the receiver: of datagrams, or of connections with their limits.
  pub data Incoming : Type 0 where
    datagrams : L.Socket → Incoming
    connections :
        L.Socket → (keep_alive : ℕ) → (max_size_bytes : ℕ) → (tls : Option L.Tls) → Incoming

  -- The first key, which `with_single_cert` takes.
  unfoldable pub first_key : String → List L.Key → Result L.Key
  first_key path [] = err (no_keys path)
  first_key path (key ∷ keys) = ok key

  unfoldable pub tls_config : Certificate → Result L.Tls
  unfolding first_key
  tls_config c = and_then (or_err (open_failed c.path) (L.open_file c.path)) (λ reader.
      and_then (or_err (pem_failed c.path) (L.certs reader)) (λ cert.
        and_then (or_err (open_failed c.private_key_path) (L.open_file c.private_key_path))
          (λ key_reader.
            and_then (or_err (pem_failed c.private_key_path) (L.pkcs8_private_keys key_reader))
              (λ keys.
                and_then (first_key c.private_key_path keys)
                  (λ key. or_err bad_certificate (L.with_single_cert cert key))))))

  unfoldable pub tls_of : Option Certificate → Result (Option L.Tls)
  unfolding tls_config
  tls_of none = ok none
  tls_of (some c) = and_then (tls_config c) (λ tls. ok (some tls))

  -- `incoming` of `build`.
  unfoldable pub incoming : Config → L.Addr → Result Incoming
  unfolding tls_of
  incoming config addr = elim config.bind.protocol [
    | udp ↦ elim config.certificate [
      | some _ ↦ err tls_over_udp
      | none ↦ and_then (or_err bind_failed (L.bind_udp addr)) (λ s. ok (datagrams s))
    ]
    | tcp ↦ and_then (tls_of config.certificate) (λ tls.
        and_then (or_err bind_failed (L.bind_tcp addr))
          (λ s. ok (connections s config.tcp_keep_alive_secs config.tcp_max_size_bytes tls)))
  ]

  -- `Server`: the future, which is what it will try to listen to, and the handle, which is there
  -- until it is taken.
  pub record Server : Type 0 where
    pub fut : Result Incoming
    pub handle : Bool

  -- `config.tcp_max_size_bytes as usize` changes nothing where a `usize` has 64 bits.
  unfoldable pub build : Config → Result Server
  unfolding incoming
  build config =
      and_then (or_err bad_address (L.parse config.bind.addr))
        (λ addr. ok (record { fut = incoming config addr; handle = true }))

  -- `Server::take_handle`: whether there was a handle, and the server without one.
  unfoldable pub take_handle : Server → Bool × Server
  take_handle s = (s.handle, record s { handle = false })
