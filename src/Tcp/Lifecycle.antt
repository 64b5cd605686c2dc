-- ===== src/Tcp/Lifecycle.antt =====
-- tcp_server.go: Start, Stop, acceptLoop and the handlers of the clients, as goroutines that take
-- steps, with the server's mutex, its shutdown channel and its WaitGroup.
--
-- Start, allowConnection and checkRateLimit hold the mutex for one step. Stop holds it from its
-- beginning until it returns, through wg.Wait(). A step is what a goroutine does to the state that
-- it shares; what a client sends, and when, is open.
pub mod Stopping
pub mod Deadlock
pub mod Liveness
use fluxor_db.Base.{◌≡◌, Bool, true, false, List, [], ◌∷◌, All}
use fluxor_db.Base.Int.{is_pos}
use fluxor_db.Tcp.Admission.{TcpServerConfig}

-- acceptLoop: the check of the channel, Accept, and a connection that is to be stored and served.
pub data Acceptor : Type 0 where
  absent checking accepting storing ended : Acceptor

-- handleClient: before allowConnection, in the loop of lines, before checkRateLimit, after wg.Done.
pub data Handler : Type 0 where
  arriving reading limiting gone : Handler

-- Stop: not called, at wg.Wait() with the mutex, returned, and the panic of a second close.
pub data Stopper : Type 0 where
  idle waiting returned panicked : Stopper

pub record Lifecycle : Type 0 where
  pub listening : Bool  -- the listener is not nil
  pub shutdown_closed : Bool
  pub acceptor : Acceptor
  pub handlers : List Handler
  pub stopper : Stopper

abbrev pub initial : Lifecycle
initial = record {
  listening = false;
  shutdown_closed = false;
  acceptor = absent;
  handlers = [];
  stopper = idle;
}

-- The mutex can be taken.
abbrev pub IsFree : Stopper → Type 0
IsFree idle = Unit
IsFree waiting = ⊥
IsFree returned = Unit
IsFree panicked = ⊥

abbrev pub IsGone : Handler → Type 0
IsGone arriving = ⊥
IsGone reading = ⊥
IsGone limiting = ⊥
IsGone gone = Unit

module _ (c : TcpServerConfig) where
  -- One handler, with the channel closed or not.
  pub data Move (closed : Bool) (stopper : Stopper) : Handler → Handler → Type 0 where
    unchecked : c.enable_ddos_protection ≡ false → Move closed stopper arriving reading
    allowed :
        c.enable_ddos_protection ≡ true → IsFree stopper → Move closed stopper arriving reading
    refused : c.enable_ddos_protection ≡ true → IsFree stopper → Move closed stopper arriving gone
    answered : closed ≡ false → Move closed stopper reading reading
    asking :
        closed ≡ false
        → c.enable_ddos_protection ≡ true
        → is_pos c.rate_limit_per_ip ≡ true
        → Move closed stopper reading limiting
    limited : IsFree stopper → Move closed stopper limiting reading
    left : Move closed stopper reading gone

  -- One of the handlers moves.
  pub data Inside (closed : Bool) (stopper : Stopper) : List Handler → List Handler → Type 0 where
    here :
        {h h' : Handler} {hs : List Handler}
        → Move closed stopper h h'
        → Inside closed stopper (h ∷ hs) (h' ∷ hs)
    there :
        {h : Handler} {hs hs' : List Handler}
        → Inside closed stopper hs hs'
        → Inside closed stopper (h ∷ hs) (h ∷ hs')

  pub data Step (s : Lifecycle) : Lifecycle → Type 0 where
    starting :
        IsFree s.stopper
        → s.listening ≡ false
        → Step s (record s { listening = true; acceptor = checking })
    stopping :
        IsFree s.stopper
        → s.listening ≡ true
        → s.shutdown_closed ≡ false
        → Step s (record s { shutdown_closed = true; stopper = waiting })
    stopping_again :
        IsFree s.stopper
        → s.listening ≡ true
        → s.shutdown_closed ≡ true
        → Step s (record s { stopper = panicked })
    stopped :
        s.stopper ≡ waiting
        → s.acceptor ≡ ended
        → All IsGone s.handlers
        → Step s (record s { stopper = returned })
    passed :
        s.acceptor ≡ checking
        → s.shutdown_closed ≡ false
        → Step s (record s { acceptor = accepting })
    leaving :
        s.acceptor ≡ checking → s.shutdown_closed ≡ true → Step s (record s { acceptor = ended })
    accepted : s.acceptor ≡ accepting → Step s (record s { acceptor = storing })
    failed : s.acceptor ≡ accepting → Step s (record s { acceptor = checking })
    failed_shut :
        s.acceptor ≡ accepting → s.shutdown_closed ≡ true → Step s (record s { acceptor = ended })
    spawned :
        s.acceptor ≡ storing
        → Step s (record s { acceptor = checking; handlers = arriving ∷ s.handlers })
    handling :
        {hs : List Handler}
        → Inside s.shutdown_closed s.stopper s.handlers hs
        → Step s (record s { handlers = hs })

  pub data Steps (s : Lifecycle) : Lifecycle → Type 0 where
    none_yet : Steps s s
    later : {t u : Lifecycle} → Steps s t → Step t u → Steps s u
