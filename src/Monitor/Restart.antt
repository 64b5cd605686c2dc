-- ===== src/Monitor/Restart.antt =====
-- monitor.go: what becomes of a monitor that is started again.
use fluxor_db.Base.{ℕ, ◌≡◌, true, none, some, arith}
use fluxor_db.Monitor.{Monitor, add_callback, start, stop}

-- What a monitor can become by calls that do not panic.
pub data Later (m : Monitor) : Monitor → Type 0 where
  unchanged : Later m m
  adding : {n : Monitor} → Later m n → (callback : ℕ) → Later m (add_callback callback n)
  starting : {n : Monitor} → Later m n → Later m (start n)
  stopping : {n n' : Monitor} → Later m n → stop n ≡ some n' → Later m n'

-- Stop of a running monitor closes the channel.
stop-closed : (m n : Monitor) → m.running ≡ true → stop m ≡ some n → n.stop_closed ≡ true
unfolding stop
stop-closed m n on e = ground arith

stop-stays : (m n : Monitor) → m.stop_closed ≡ true → stop m ≡ some n → n.stop_closed ≡ true
unfolding stop
stop-stays m n shut e = ground arith

start-stays : (m : Monitor) → m.stop_closed ≡ true → (start m).stop_closed ≡ true
unfolding start
start-stays m shut = ground arith

Later-closed : {m n : Monitor} → Later m n → m.stop_closed ≡ true → n.stop_closed ≡ true
unfolding add_callback
Later-closed unchanged h = h
Later-closed (adding l callback) h = Later-closed l h
Later-closed (starting {n} l) h = start-stays n (Later-closed l h)
Later-closed (stopping {n} {n'} l e) h = stop-stays n n' (Later-closed l h) e

-- When a running monitor has been stopped, then after any calls of AddCallback, Start and Stop that
-- return, the next Start leaves it running, and the Stop that follows panics, as it closes a closed
-- channel.
pub restart_panics :
    (m m1 n : Monitor)
    → m.running ≡ true
    → stop m ≡ some m1
    → Later m1 n
    → ((start n).running ≡ true) × (stop (start n) ≡ none)
unfolding start stop
restart_panics m m1 n on stops later =
    let shut = Later-closed later (stop-closed m m1 on stops) in (ground arith, ground arith)
