-- ===== src/Mysqld/Counters.antt =====
-- The calls of internal/manager/mysqld/rpc_mysqld.go and the ticks of the monitor, in any order.
use neoha.Common.{
  Bool, true, false, ◌&&◌, ℕ, suc, ◌+◌, ◌%◌, ◌^◌, String, List, [], ◌∷◌, ◌≡◌, arith, if◌then◌else◌,
}
use neoha.Common.Result.{Result, ok, err}
use neoha.Mysqld.{
  Shell, Mysqld, Command, Entry, start_mysqld, stop_mysqld, kill_mysqld, monitor, monitor_start,
  monitor_stop, is_mysqld_running, message,
}

pub data Call : Type 0 where
  start shut_down kill is_running : Call
  start_monitor stop_monitor : Call
  tick : Call  -- of the monitor

-- `RetCode`: OK, or the text of the error.
abbrev ret_code : Result (Unit {0}) → String
ret_code (ok u) = "OK"
ret_code (err e) = message e

abbrev answer : Result (Unit {0}) × Mysqld → String × Mysqld
answer (r, m) = (ret_code r, m)

module _ (sh : Shell) where
  unfoldable pub handle : Call → Mysqld → String × Mysqld
  handle start m = answer (start_mysqld sh m)
  handle shut_down m = answer (stop_mysqld sh m)
  handle kill m = answer (kill_mysqld sh m)
  handle is_running m =
      let (there, m') = is_mysqld_running sh m in
      (if there then "OK" else "ErrorMysqldNotRunning", m')
  handle start_monitor m = ("OK", monitor_start sh m)
  handle stop_monitor m = ("OK", monitor_stop sh m)
  handle tick m = ("", monitor sh m)

  unfoldable pub handle_all : List Call → Mysqld → Mysqld
  handle_all [] m = m
  handle_all (c ∷ cs) m = handle_all cs (handle c m).1

-- The commands that succeeded: starts, and shutdowns with kills.
unfoldable pub starts : List Entry → ℕ
starts [] = 0
starts ((Command.start args, true) ∷ es) = suc (starts es)
starts ((Command.start args, false) ∷ es) = starts es
starts ((Command.stop args, b) ∷ es) = starts es
starts ((Command.kill args, b) ∷ es) = starts es
starts ((Command.check args, b) ∷ es) = starts es
starts ((Command.ssh args, b) ∷ es) = starts es
starts ((Command.launch args, b) ∷ es) = starts es
starts ((Command.kill_job, b) ∷ es) = starts es

unfoldable pub stops : List Entry → ℕ
stops [] = 0
stops ((Command.stop args, true) ∷ es) = suc (stops es)
stops ((Command.stop args, false) ∷ es) = stops es
stops ((Command.kill args, true) ∷ es) = suc (stops es)
stops ((Command.kill args, false) ∷ es) = stops es
stops ((Command.start args, b) ∷ es) = stops es
stops ((Command.check args, b) ∷ es) = stops es
stops ((Command.ssh args, b) ∷ es) = stops es
stops ((Command.launch args, b) ∷ es) = stops es
stops ((Command.kill_job, b) ∷ es) = stops es

abbrev is_check : List Entry → Bool
is_check [] = false
is_check ((Command.check args, b) ∷ es) = true
is_check (e ∷ es) = false

-- No start and no shutdown without a check right before it.
unfoldable pub guarded : List Entry → Bool
guarded [] = true
guarded ((Command.start args, b) ∷ es) = is_check es && guarded es
guarded ((Command.stop args, b) ∷ es) = is_check es && guarded es
guarded ((Command.kill args, b) ∷ es) = guarded es
guarded ((Command.check args, b) ∷ es) = guarded es
guarded ((Command.ssh args, b) ∷ es) = guarded es
guarded ((Command.launch args, b) ∷ es) = guarded es
guarded ((Command.kill_job, b) ∷ es) = guarded es

abbrev one_if : Bool → ℕ
one_if true = 1
one_if false = 0

-- The counters count what was run, and the monitor was started once more than it was stopped while
-- it runs.
pub record IsAccounted (m : Mysqld) : Type 0 where
  pub started : m.stats.mysqld_starts ≡ starts m.log % 2 ^ 64
  pub stopped : m.stats.mysqld_stops ≡ stops m.log % 2 ^ 64
  pub monitored :
      m.stats.monitor_starts % 2 ^ 64 ≡ (m.stats.monitor_stops + one_if m.monitor_running) % 2 ^ 64
  pub checked : guarded m.log ≡ true

module _ (sh : Shell) where
  handle-IsAccounted : (c : Call) (m : Mysqld) → IsAccounted m → IsAccounted (handle sh c m).1
  unfolding handle start_mysqld stop_mysqld kill_mysqld monitor monitor_start monitor_stop
      is_mysqld_running starts stops guarded
  handle-IsAccounted start m a = ground arith
  handle-IsAccounted shut_down m a = ground arith
  handle-IsAccounted kill m a = ground arith
  handle-IsAccounted is_running m a = ground arith
  handle-IsAccounted start_monitor m a = ground arith
  handle-IsAccounted stop_monitor m a = ground arith
  handle-IsAccounted tick m a = ground arith

  -- Over any sequence of calls and ticks of the monitor, one after another, with any answers of
  -- the shell: the counters of starts and of stops are, in 64 bits, the numbers of start
  -- commands and of shutdown and kill commands that succeeded; the monitor was started once more
  -- than stopped while it runs, and as often otherwise; and no start and no shutdown command was
  -- run without a check of the process right before it.
  pub handle_all-IsAccounted :
      (cs : List Call) (m : Mysqld) → IsAccounted m → IsAccounted (handle_all sh cs m)
  unfolding handle_all
  handle_all-IsAccounted [] m a = a
  handle_all-IsAccounted (c ∷ cs) m a =
      handle_all-IsAccounted cs (handle sh c m).1 (handle-IsAccounted c m a)
