-- ===== src/Debugging/Reports.antt =====
-- debugging/debug_semaphore_exec_standalone.c: the texts of its two tests of many holders, and a child.
use waitlock.Base.{ℕ, Bool, List, [], ◌∷◌, ◌++◌, codes, Option, none, some, ◌==◌, if◌then◌else◌}
use waitlock.Base.Int.{ℤ, pos, minus_one}
use waitlock.Directory.{Dir}
use waitlock.Globals.{GlobalState, e_success}
use waitlock.Lock.Acquire.{Round, Outcome, returned, waiting, acquire_lock}
use waitlock.Lock.Claim.{Host}
use waitlock.Lock.Release.{release_lock}
use waitlock.Text.{Str, truncate}
use waitlock.Text.Decimal.{print_nat, print_int}

-- What differs between the two tests: the descriptor, the limit, the number of the first child, and
-- the texts.
pub record Contest : Type 0 where
  pub descriptor : Str
  pub max_holders : ℕ
  pub first_child : ℕ
  pub won : Str
  pub lost : Str
  pub got : Str
  pub refused : Str
  pub detected : Bool → List Str
  pub passed : List Str
  pub exceeded : ℕ → List Str
  pub fewer : ℕ → Str
  pub released : Str
  pub not_released : Str

abbrev pub semaphore : Contest
semaphore = record {
  descriptor = codes "test_semaphore_detailed";
  max_holders = 3;
  first_child = 2;
  won = codes "SUCCESS:";
  lost = codes "FAILED:";
  got = codes "PASS: Parent acquired first slot";
  refused = codes "FAIL: Parent couldn't acquire first slot (result=";
  detected = λ b. [];
  passed = codes "PASS: Semaphore correctly limited to 3 holders" ∷ [];
  exceeded = λ n.
      (codes "FAIL: SEMAPHORE BUG - Too many processes acquired locks ("
        ++ (print_nat n ++ codes " > 3)"))
      ∷ codes "      This indicates a race condition in acquire_lock()"
      ∷ [];
  fewer = λ n.
      codes "UNEXPECTED: Fewer processes acquired locks than expected ("
      ++ (print_nat n ++ codes " < 3)");
  released = codes "PASS: All semaphore slots properly released";
  not_released = codes "FAIL: Semaphore slots not properly released (check_result=";
}

abbrev pub mutex : Contest
mutex = record {
  descriptor = codes "test_mutex_detailed";
  max_holders = 1;
  first_child = 1;
  won = codes "BUG_SUCCESS:";
  lost = codes "EXPECTED_FAIL:";
  got = codes "PASS: Parent acquired mutex lock";
  refused = codes "FAIL: Parent couldn't acquire mutex lock (result=";
  detected = λ b.
      (if b then codes "  Race condition detected: YES" else codes "  Race condition detected: NO")
      ∷ [];
  passed =
      codes "PASS: Mutex correctly limited to 1 holder"
      ∷ codes "      This suggests race condition may be semaphore-specific"
      ∷ [];
  exceeded = λ n.
      codes "FAIL: MUTEX RACE CONDITION DETECTED - Multiple processes acquired exclusive lock!"
      ∷ codes "      This indicates the race condition affects BOTH mutex and semaphore"
      ∷ codes "      The bug is in the core atomic rename mechanism in acquire_lock()"
      ∷ [];
  fewer = λ n. codes "UNEXPECTED: No mutex acquisitions by children (all timed out?)";
  released = codes "PASS: Mutex properly released";
  not_released = codes "FAIL: Mutex not properly released (check_result=";
}

-- `timeout`, in microseconds
abbrev pub two_seconds : ℤ
two_seconds = pos 2000000

-- "Reset global state for child"
unfoldable pub child_start : GlobalState → GlobalState
child_start g = record g { lock_fd = minus_one; lock_path = []; child_pid = pos 0 }

abbrev pub path_or_null : Str → Str
path_or_null [] = codes "NULL"
path_or_null (c ∷ path) = c ∷ path

-- `status_msg`, with the text of the time that has passed.
unfoldable pub status_msg : Contest → ℤ → Str → ℕ → GlobalState → Str
status_msg k pid elapsed code g = truncate 512 (
    if code == e_success
    then k.won
      ++ (codes "PID="
          ++ (print_int pid
              ++ (codes ":FD="
                  ++ (print_int g.lock_fd
                      ++ (codes ":TIME="
                          ++ (elapsed ++ (codes "s:PATH=" ++ path_or_null g.lock_path)))))))
    else k.lost
      ++ (codes "PID="
          ++ (print_int pid
              ++ (codes ":RESULT="
                  ++ (print_nat code ++ (codes ":TIME=" ++ (elapsed ++ codes "s")))))))

-- What a child runs on: its own `acquire_lock` from a directory and a state, what others do while it
-- holds the lock, and whether its message reaches the parent in time.
pub record Child : Type 0 where
  pub host : Host
  pub start : ℕ
  pub rounds : List Round
  pub entries : Dir
  pub state : GlobalState
  pub others : Dir → Dir
  pub elapsed : Str
  pub heard : Bool

-- How a child ends: its message, its exit code and the entries that it leaves.
pub record ChildEnd : Type 0 where
  pub message : Str
  pub exit_code : ℕ
  pub entries : Dir

unfoldable pub finish_child : Contest → Str → Child → Outcome → Option ChildEnd
finish_child k lock_dir c (waiting wait_ms dir) = none
finish_child k lock_dir c (returned code dir g) = some (record {
  message = status_msg k c.host.pid c.elapsed code g;
  exit_code = if code == e_success then 0 else 1;
  entries = if code == e_success then (release_lock lock_dir (c.others dir) g).0 else dir;
})

unfoldable pub run_child : Contest → Str → Child → Option ChildEnd
run_child k lock_dir c = finish_child k lock_dir c (
    acquire_lock (some lock_dir) c.host k.descriptor k.max_holders two_seconds c.start c.rounds
      c.entries (child_start c.state))

-- What `select` and `read` give for a child; `none` when its time is over.
unfoldable pub reply_of : Contest → Str → Child → Option Str
reply_of k lock_dir c =
    if c.heard
    then (elim (run_child k lock_dir c) [ none ↦ none | some e ↦ some e.message ])
    else none
