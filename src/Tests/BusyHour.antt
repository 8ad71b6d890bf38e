-- ===== src/Tests/BusyHour.antt =====
-- An hour of a server.
use protei_cov.Prelude.{ℕ, refl, true, false, List, [], ◌∷◌, All, codes}
use protei_cov.Http.Visits.{Visit}
use protei_cov.Http.Serving.{
  Happening, requests, wakes, moves, first_look, minutes, watches, IsFine,
}
use protei_cov.Tests.ConfigFiles.{upper_host}
use protei_cov.Tests.ManagerTests.{worker_turn, thrice, thrice-IsFair, arrival}

abbrev pub visit : ℕ → Visit
visit now = record { arrival = arrival now; host = upper_host; joining = thrice }

-- Two calls, an update, a path that is not served, and what goes on meanwhile.
abbrev pub busy_hour : List Happening
busy_hour =
    first_look 3
    ∷ requests (visit 5) true (codes "/phone=11")
    ∷ moves (worker_turn 1)
    ∷ moves (worker_turn 1)
    ∷ requests (visit 8) true (codes "/update")
    ∷ wakes (visit 9) 0
    ∷ wakes (visit 9) 1
    ∷ requests (visit 9) false (codes "/phone=12")
    ∷ minutes 60 upper_host
    ∷ watches thrice
    ∷ wakes (visit 9) 1
    ∷ requests (visit 10) true (codes "/phone=x")
    ∷ requests (visit 11) true (codes "/phone=13")
    ∷ requests (visit 11) true (codes "/metrics")
    ∷ []

pub busy_hour-IsFine : All IsFine busy_hour
busy_hour-IsFine = (
  tt,
  (
    thrice-IsFair,
    (
      (3, refl),
      (
        (3, refl),
        (
          thrice-IsFair,
          (
            thrice-IsFair,
            (
              thrice-IsFair,
              (
                thrice-IsFair,
                (
                  tt,
                  (
                    thrice-IsFair,
                    (thrice-IsFair, (thrice-IsFair, (thrice-IsFair, (thrice-IsFair, tt)))),
                  ),
                ),
              ),
            ),
          ),
        ),
      ),
    ),
  ),
)
