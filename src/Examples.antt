-- ===== src/Examples.antt =====
-- Concrete runs of the model, a module for each part of the program, and the data they share: a
-- host, what the system answers in a quiet moment, and descriptors.
pub mod Locks
pub mod Steps
pub mod Answers
pub mod Files
pub mod Programs
pub mod Processes
pub mod Ended
pub mod Visits
pub mod Tests
pub mod Timeouts
pub mod Whole
pub mod Orders
use waitlock.Base.{ℕ, Bool, true, false, [], ◌∷◌, List, codes, Option, some, none, zero, suc, refl}
use waitlock.Base.Int.{ℤ, pos, negsuc}
use waitlock.Directory.{Dir}
use waitlock.Lock.Acquire.{Round, Request, request}
use waitlock.Lock.Claim.{Host, Slots}
use waitlock.LockFile.{File}
use waitlock.Process.{Probe, KillResult}
use waitlock.Text.{Str}

abbrev pub app : Str
app = codes "app"

abbrev pub lock_dir : Str
lock_dir = codes "/tmp/waitlock"

abbrev pub host : Host
host = record {
  pid = pos 100;
  ppid = pos 1;
  uid = 1000;
  hostname = some (codes "box");
  cmdline = some (codes "sh");
}

abbrev pub everyone_lives : Probe
everyone_lives pid = KillResult.delivered

abbrev pub slots : Slots
slots = record { can_create = λ slot. true; written = λ slot. true; time = λ slot. pos 1700000000 }

abbrev pub quiet_round : Round
quiet_round = record {
  now = 5;
  opened = true;
  probe = everyone_lives;
  slots = slots;
  reopened = pos 3;
  now_after = 6;
  should_exit = false;
  now_sleep = 7;
  random = 0;
  others = λ dir. dir;
}

-- Two holders, one second.
abbrev pub two_holders : Request
two_holders = request lock_dir host app 2 (pos 1000000) 0

-- A file that nobody may read.
abbrev pub unreadable : File
unreadable = record { bytes = []; readable = false }
