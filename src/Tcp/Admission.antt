-- ===== src/Tcp/Admission.antt =====
-- tcp_server.go: the limits on addresses. A message or a connection is let in or refused here.
use fluxor_db.Base.{
  ℕ, suc, String, Bool, true, false, ◌&&◌, ◌||◌, not, Option, none, some, List, [], ◌∷◌, str_eq,
  if◌then◌else◌, leb,
}
use fluxor_db.Base.Dict.{lookup, assign}
use fluxor_db.Base.Int.{ℤ, pos, pos_part, is_pos, ltb_ℤ, sub_ℕ}

-- TCPServerConfig, without the address and the runtime.
pub record TcpServerConfig : Type 0 where
  pub enable_idempotency : Bool
  pub enable_ddos_protection : Bool
  pub max_request_size : ℤ
  pub max_connections_per_ip : ℤ
  pub rate_limit_per_ip : ℤ
  pub blacklisted_ips : List String
  pub whitelisted_ips : List String

-- The maps of the server. Those of addresses to true are the lists that they are made from.
pub record Guard : Type 0 where
  pub config : TcpServerConfig
  pub ip_connections : List (String × ℕ)
  pub ip_rate_limits : List (String × ℕ)

unfoldable pub new_guard : TcpServerConfig → Guard
new_guard config = record { config = config; ip_connections = []; ip_rate_limits = [] }

unfoldable pub contains : String → List String → Bool
contains ip [] = false
contains ip (x ∷ xs) = str_eq x ip || contains ip xs

abbrev is_empty : List String → Bool
is_empty [] = true
is_empty (x ∷ xs) = false

abbrev pub count_of : Option ℕ → ℕ
count_of none = 0
count_of (some n) = n

-- allowConnection
unfoldable pub allow_connection : String → Guard → Guard × Bool
unfolding contains
allow_connection ip g =
    let count = count_of (lookup ip g.ip_connections) in
    if contains ip g.config.blacklisted_ips
    then (g, false)
    else if not (is_empty g.config.whitelisted_ips) && not (contains ip g.config.whitelisted_ips)
    then (g, false)
    else if is_pos g.config.max_connections_per_ip
    then if leb (pos_part g.config.max_connections_per_ip) count
      then (g, false)
      else (record g { ip_connections = assign ip (suc count) g.ip_connections }, true)
    else (g, true)

abbrev pub one_second : ℕ
one_second = 1000000000

rate_with : ℕ → String → Guard → Option ℕ → Guard × Bool
rate_with now ip g none = (record g { ip_rate_limits = assign ip now g.ip_rate_limits }, true)
rate_with now ip g (some last) =
    if ltb_ℤ (sub_ℕ now last) (pos one_second)
    then (g, false)
    else (record g { ip_rate_limits = assign ip now g.ip_rate_limits }, true)

-- checkRateLimit
unfoldable pub check_rate_limit : ℕ → String → Guard → Guard × Bool
unfolding rate_with
check_rate_limit now ip g =
    if is_pos g.config.rate_limit_per_ip
    then rate_with now ip g (lookup ip g.ip_rate_limits)
    else (g, true)
