-- ===== src/Sender/Daemon/Running.antt =====
-- In every run of the goroutines of internal/sender/client.go and scanner.go, what they share is what
-- the steps of Sender.Crew lead to, and each file in work is one worker's.
use go_xport.Common.{ℕ, ◌≡◌, refl, sym, ap, subst, Bool, Bytes}
use go_xport.Monitor.Tracker.{Tracker}
use go_xport.Sender.Crew
use go_xport.Sender.Crew.{Crew, scanned, made, later}
use go_xport.Sender.Crew.Alone.{Reaches-IsCrew}
use go_xport.Sender.Daemon.{
  ended, Daemon, started, close_pool, stop_queue, close_scanner, Works, polls, leaves, takes,
  finds_end, settles, Others, scans, reads_nothing, ends_scans, closes_scanner, closes_pool,
  stops_queue, changes, Runs, here, works, others, new_daemon,
}
use go_xport.Sender.Daemon.Manned.{
  carried, Apart, IsManned, put_place-IsManned, took-IsManned, settled-IsManned,
}
use go_xport.Sender.Folder.{Folder}
use go_xport.Sender.Items.{Sorter}
use go_xport.Sender.Worker.{AfterAction, work_item}

module _ (sum256 : Bytes → Bytes) (sorter : Sorter) (after_action : AfterAction) where
  -- A step of the goroutines is one of the crew's, or none.
  Works-Reaches :
      {s t : Daemon}
      → Works sum256 sorter after_action s t
      → Crew.Reaches sum256 sorter after_action s.crew
      → Crew.Reaches sum256 sorter after_action t.crew
  Works-Reaches (polls i lt e runs) r = r
  Works-Reaches (leaves i lt e stopped) r = r
  Works-Reaches (takes i lt e popped) r = later r (Crew.takes popped)
  Works-Reaches (finds_end i lt e popped) r = r
  Works-Reaches (settles i {connected} turn front back lt e busy halts) r =
      later r (Crew.settles turn connected front _ back busy)

  Others-Reaches :
      {s t : Daemon}
      → Others sum256 sorter after_action s t
      → Crew.Reaches sum256 sorter after_action s.crew
      → Crew.Reaches sum256 sorter after_action t.crew
  unfolding close_pool stop_queue close_scanner
  Others-Reaches (scans entries runs once seen) r = later r (Crew.scans entries once seen)
  Others-Reaches (reads_nothing runs) r = r
  Others-Reaches (ends_scans e stopped) r = r
  Others-Reaches closes_scanner r = r
  Others-Reaches closes_pool r = r
  Others-Reaches (stops_queue e) r = later r Crew.stops
  Others-Reaches (changes folder) r = later r (Crew.changes folder)

  Works-IsManned :
      (s t : Daemon)
      → Works sum256 sorter after_action s t
      → Crew.Reaches sum256 sorter after_action s.crew
      → IsManned s
      → IsManned t
  Works-IsManned s _ (polls i lt e runs) r h = put_place-IsManned s i _ (ap carried e) refl h
  Works-IsManned s _ (leaves i lt e stopped) r h =
      put_place-IsManned s i ended (ap carried e) refl h
  Works-IsManned s _ (takes i {connected} {item} {next} lt e popped) r h =
      let c = Reaches-IsCrew sum256 sorter after_action _ (later r (Crew.takes popped)) in
      took-IsManned s i connected item next lt (ap carried e) c.apart.0 h
  Works-IsManned s _ (finds_end i lt e popped) r h =
      put_place-IsManned s i ended (ap carried e) refl h
  Works-IsManned s _ (settles i {connected} turn front {item} back lt e busy halts) r h =
      settled-IsManned s i connected
        (work_item sum256 sorter after_action turn connected item s.crew.pool) front item back e
        busy (Reaches-IsCrew sum256 sorter after_action s.crew r).apart h

  same-IsManned :
      (s t : Daemon)
      → t.crew.busy ≡ s.crew.busy
      → t.workers ≡ s.workers
      → t.parallel ≡ s.parallel
      → IsManned s
      → IsManned t
  same-IsManned s t busy workers parallel h = record {
    held = rw (busy, workers, parallel) h.held;
    has = rw (busy, workers) h.has;
    apart = subst Apart (sym workers) h.apart;
  }

  Others-IsManned : (s t : Daemon) → Others sum256 sorter after_action s t → IsManned s → IsManned t
  unfolding close_pool stop_queue close_scanner scanned
  Others-IsManned s _ (scans entries runs once seen) h = same-IsManned s _ refl refl refl h
  Others-IsManned s _ (reads_nothing runs) h = same-IsManned s _ refl refl refl h
  Others-IsManned s _ (ends_scans e stopped) h = same-IsManned s _ refl refl refl h
  Others-IsManned s _ closes_scanner h = same-IsManned s _ refl refl refl h
  Others-IsManned s _ closes_pool h = same-IsManned s _ refl refl refl h
  Others-IsManned s _ (stops_queue e) h = same-IsManned s _ refl refl refl h
  Others-IsManned s _ (changes folder) h = same-IsManned s _ refl refl refl h

  -- What every run has: the crew's invariants, and who has which file.
  pub record IsRun (s : Daemon) : Type 0 where
    pub crew : Crew.Reaches sum256 sorter after_action s.crew
    pub manned : IsManned s

  pub Runs-IsRun :
      {s : Daemon} {n : ℕ} {t : Daemon} → IsRun s → Runs sum256 sorter after_action s n t → IsRun t
  Runs-IsRun h here = h
  Runs-IsRun h (works {t = t} {u} r w) =
      let before = Runs-IsRun h r in
      record {
        crew = Works-Reaches w before.crew;
        manned = Works-IsManned t u w before.crew before.manned;
      }
  Runs-IsRun h (others {t = t} {u} r o) =
      let before = Runs-IsRun h r in
      record { crew = Others-Reaches o before.crew; manned = Others-IsManned t u o before.manned }

  pub new_daemon-IsRun :
      (parallel max_attempts : ℕ) (tracker : Tracker) (unreadable : Bool) (folder : Folder)
      → IsRun (new_daemon parallel max_attempts tracker unreadable folder)
  unfolding started
  new_daemon-IsRun parallel max_attempts tracker unreadable folder = record {
    crew = made max_attempts tracker unreadable folder;
    manned = record {
      held = λ item busy. elim busy [ ];
      has = λ i item e. absurd (cc);
      apart = λ i j x y e. absurd (cc);
    };
  }
