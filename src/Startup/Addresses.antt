-- ===== src/Startup/Addresses.antt =====
-- The addresses that `main` binds, and `listening_addresses`, which it logs.
use corsget.Prelude.{
  ℕ, ◌==◌, Bool, true, false, Option, none, some, List, [], ◌∷◌, ◌++◌, Result, ok, ◌>>=◌, collect,
  filter, map, if◌then◌else◌, is_empty,
}
use corsget.Text.{Text, text, join, to_decimal}
use corsget.Config.{ApplicationConfig}

-- An address is the number that its bytes stand for.
pub data IpAddr : Type 0 where
  v4 : ℕ → IpAddr
  v6 : ℕ → IpAddr

pub record SocketAddr : Type 0 where
  pub ip : IpAddr
  pub port : ℕ

unfoldable pub is_unspecified : IpAddr → Bool
is_unspecified (v4 bits) = bits == 0
is_unspecified (v6 bits) = bits == 0

unfoldable pub same_family : IpAddr → IpAddr → Bool
same_family (v4 _) (v4 _) = true
same_family (v6 _) (v6 _) = true
same_family (v4 _) (v6 _) = false
same_family (v6 _) (v4 _) = false

-- `format!("{host}:{port}").parse()` for each host, up to the first that is no address.
unfoldable pub bind_addresses :
    (Text → Result Text SocketAddr) → ApplicationConfig → Result Text (List SocketAddr)
bind_addresses parse application =
    collect (λ host. parse (host ++ text ":" ++ to_decimal application.port)) application.host

-- The body of the loop: a wildcard is listed as the interfaces of its family, if there are any.
unfoldable pub listed_as : Option (List IpAddr) → SocketAddr → List SocketAddr
listed_as interfaces bound =
    let known : List IpAddr = elim interfaces [ none ↦ [] | some ips ↦ ips ] in
    let expanded : List SocketAddr =
      map (λ ip. record { ip = ip; port = bound.port })
        (filter (λ ip. same_family bound.ip ip) known) in
    if is_unspecified bound.ip
    then if is_empty expanded then bound ∷ [] else expanded
    else bound ∷ []

unfoldable pub listed_addresses :
    Option (List IpAddr) → List (Result Text SocketAddr) → Result Text (List SocketAddr)
listed_addresses interfaces [] = ok []
listed_addresses interfaces (local_addr ∷ listeners) = do
  bound ← local_addr
  rest ← listed_addresses interfaces listeners
  ok (listed_as interfaces bound ++ rest)

-- `listening_addresses`, from what each listener reports.
unfoldable pub listening_addresses :
    (SocketAddr → Text) → Option (List IpAddr) → List (Result Text SocketAddr) → Result Text Text
listening_addresses display interfaces listeners = do
  addresses ← listed_addresses interfaces listeners
  ok (join (10 ∷ text "  ") (map display addresses))
