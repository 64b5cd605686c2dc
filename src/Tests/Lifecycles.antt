-- ===== src/Tests/Lifecycles.antt =====
-- The theorems on the life of the runtime and of the TCP server.
use fluxor_db.Base.{ℕ, suc, ◌≡◌, ◌≢◌, refl, true, false, Option, none, some, [], ◌∷◌, All}
use fluxor_db.Base.Int.{pos}
use fluxor_db.Db
use fluxor_db.Manager
use fluxor_db.Db.{AdvancedDb}
use fluxor_db.Errors.{Result, ok, err}
use fluxor_db.Runtime.Lifecycle as Runtime
use fluxor_db.Runtime.Lifecycle.{DbRuntime, Ended}
use fluxor_db.Tests.Settings.{oracle_config, moment}
use fluxor_db.Tests.Managers.{pool}
use fluxor_db.Runtime.Connected
use fluxor_db.Runtime.Connected.{Later}
use fluxor_db.Runtime.Disconnected
use fluxor_db.Tcp.Admission.{TcpServerConfig}
use fluxor_db.Tcp.Lifecycle as Server
use fluxor_db.Tcp.Lifecycle.{
  Acceptor, Handler, Stopper, Lifecycle, Step, Steps, Move, Inside, IsGone,
}
use fluxor_db.Tcp.Lifecycle.Deadlock
use fluxor_db.Tcp.Lifecycle.Stopping
use fluxor_db.Tcp.Lifecycle.Liveness

abbrev config : TcpServerConfig
config = record {
  enable_idempotency = false;
  enable_ddos_protection = true;
  max_request_size = pos 0;
  max_connections_per_ip = pos 2;
  rate_limit_per_ip = pos 1;
  blacklisted_ips = [];
  whitelisted_ips = [];
}

abbrev open_config : TcpServerConfig
open_config = record config { enable_ddos_protection = false }

-- The acceptor leaves while Stop waits.
abbrev still_waiting : Lifecycle
still_waiting = record {
  listening = true;
  shutdown_closed = true;
  acceptor = Acceptor.ended;
  handlers = Handler.arriving ∷ [];
  stopper = Stopper.waiting;
}

leaves : Steps config (Deadlock.cut_off config) still_waiting
unfolding Deadlock.cut_off
leaves = Steps.later Steps.none_yet (Step.leaving refl refl)

stop_deadlock_example :
    Steps config Server.initial (Deadlock.cut_off config)
    × (still_waiting.stopper ≡ Stopper.waiting)
stop_deadlock_example = Deadlock.stop_deadlock config still_waiting refl leaves

-- A server that was started, and that is stopped before it accepts a client.
abbrev waiting : Lifecycle
waiting = record {
  listening = true;
  shutdown_closed = true;
  acceptor = Acceptor.checking;
  handlers = [];
  stopper = Stopper.waiting;
}

waits : (c : TcpServerConfig) → Steps c Server.initial waiting
waits c =
    Steps.later (Steps.later Steps.none_yet (Step.starting tt refl)) (Step.stopping tt refl refl)

stop_can_return_example :
    (t : Lifecycle) × Steps open_config waiting t × (t.stopper ≡ Stopper.returned)
stop_can_return_example = Liveness.stop_can_return open_config refl waiting (waits open_config) refl

abbrev over : Lifecycle
over = record waiting { acceptor = Acceptor.ended; stopper = Stopper.returned }

ends : Steps config Server.initial over
ends = Steps.later (Steps.later (waits config) (Step.leaving refl refl)) (Step.stopped refl refl tt)

-- Stop is called again.
abbrev again : Lifecycle
again = record over { stopper = Stopper.panicked }

stop_is_final_example :
    (again.acceptor ≡ Acceptor.ended) × All IsGone again.handlers × (again.listening ≡ true)
stop_is_final_example =
    Stopping.stop_is_final config over again ends refl
      (Steps.later Steps.none_yet (Step.stopping_again tt refl refl))

abbrev pub fresh : DbRuntime ℕ ℕ
fresh = Runtime.new_db_runtime 0 oracle_config

abbrev pub connected : DbRuntime ℕ ℕ
connected = (Runtime.connect pool fresh 0).0

abbrev ask : AdvancedDb ℕ → ℕ → Option (AdvancedDb ℕ × ℕ × Result ℕ)
ask = Db.exec (λ e r. pos 0) (λ b. b) (λ n. (suc n, ok n)) moment

abbrev refusal : Result ℕ
refusal = err Runtime.not_connected

never_nil_example : Runtime.when_connected refusal ask connected 4 ≢ Ended.nil_dereference
never_nil_example =
    Connected.never_nil pool 0 oracle_config connected refusal ask 4
      (Later.connecting Later.unchanged 0)

-- A runtime with an AdvancedDB and an open manager, and what Disconnect leaves of it.
abbrev pub in_use : DbRuntime ℕ ℕ
in_use = record fresh {
  conn_manager = record (fresh.conn_manager) { opened = true; leak_detector = none };
  advanced_db = some (Db.new_advanced_db fresh.gate none);
}

abbrev put_down : DbRuntime ℕ ℕ
put_down = record in_use {
  conn_manager = record (in_use.conn_manager) { opened = false; active_connections = [] };
  advanced_db = Runtime.cleared in_use.advanced_db;
}

disconnects : Runtime.disconnect pool in_use 7 ≡ some (put_down, 8, none)
unfolding Runtime.disconnect Manager.close_db Manager.close_pool
disconnects = refl

disconnect-refuses_example :
    Runtime.when_connected refusal ask put_down 9 ≡ Ended.returned (put_down, 9, refusal)
disconnect-refuses_example =
    Disconnected.disconnect-refuses pool in_use put_down 7 8 9 refusal ask disconnects
