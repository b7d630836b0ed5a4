-- ===== src/Tests/Mains.antt =====
-- `main` of the InfiniBand programs at concrete inputs.
use network_infiniband_works.Base.{ℕ, ◌≡◌, ◌⊎◌, pos, List, [], none, some, length, arith}
use network_infiniband_works.Platform.{Trace, done, fail}
use network_infiniband_works.Metrics.{Row}
use network_infiniband_works.MultiStream.Main.{stream_main}
use network_infiniband_works.MultiStream.Main.File.{stream_main_file}
use network_infiniband_works.MultiThread.Main.{main}
use network_infiniband_works.MultiThread.Main.Overrun.{main_overruns}
use network_infiniband_works.Tests.Inputs.{env}
use network_infiniband_works.Tests.Rounds.{whole_numbers}

-- The server with at most two threads, each of which takes 5.
main_overruns_example :
    (u : Trace) × ((main env whole_numbers (λ t thread. 5) 3 2 (pos 18515) 0 [] ≡ fail u)
      ⊎ (main env whole_numbers (λ t thread. 5) 3 2 (pos 18515) 0 [] ≡ done none u))
main_overruns_example = main_overruns env whole_numbers (λ t thread. 5) 3 2 (pos 18515) 0 []

stream_main_file_example :
    (u : Trace) × ((stream_main env whole_numbers (λ t thread. 5) 4 (pos 18515) (pos 8) 0 []
        ≡ fail u)
      ⊎ ((lines : List (Row ℕ)) × (stream_main env whole_numbers
              (λ t thread. 5)
              4
              (pos 18515)
              (pos 8)
              0
              []
            ≡ done (some lines) u)
          × (length lines ≡ 500)))
stream_main_file_example =
    stream_main_file env whole_numbers (λ t thread. 5) 4 (pos 18515) (pos 8) 0 [] (omega arith)
