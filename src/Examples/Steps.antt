-- ===== src/Examples/Steps.antt =====
-- Runs of the scan, of a sleep, and of reading a command line.
use waitlock.Base.{ℕ, ◌⊎◌, ◌+◌, ◌*◌, ◌≤◌, ◌≡◌, refl, some, codes, [], ◌∷◌, length, arith}
use waitlock.Examples.{two_holders}
use waitlock.Lock.Acquire.{request, sleep_ms}
use waitlock.Lock.Acquire.Backoff.{remaining, sleep_ms_bounds}
use waitlock.Process.Cmdline.{get_process_cmdline}
use waitlock.Process.Cmdline.Words.{null_ended, spaced, get_process_cmdline-null_ended}

sleep_ms_bounds_example :
    (1 ≤ sleep_ms two_holders 500000 640)
    × ((sleep_ms two_holders 500000 640 ≡ 1)
        ⊎ ((sleep_ms two_holders 500000 640 ≤ 640)
            × (sleep_ms two_holders 500000 640 * 10000 ≤ remaining two_holders 500000 * 9)))
    × ((longer : ℕ)
        → longer ≤ 640
        → longer * 10000 ≤ remaining two_holders 500000 * 9
        → longer ≤ sleep_ms two_holders 500000 640)
    × (500000 + sleep_ms two_holders 500000 640 * 1000 ≤ 0 + 1000000 + 1000)
unfolding request
sleep_ms_bounds_example = sleep_ms_bounds two_holders 500000 640 refl (omega arith)

-- `sh -c true`
get_process_cmdline-null_ended_example :
    get_process_cmdline (some (null_ended (codes "sh" ∷ codes "-c" ∷ codes "true" ∷ [])))
    ≡ some (spaced (codes "sh") (codes "-c" ∷ codes "true" ∷ []))
unfolding null_ended length
get_process_cmdline-null_ended_example =
    get_process_cmdline-null_ended (codes "sh") (codes "-c" ∷ codes "true" ∷ []) (refl, (refl, tt))
      ((refl, (refl, tt)), ((refl, (refl, (refl, (refl, tt)))), tt)) (omega arith)
