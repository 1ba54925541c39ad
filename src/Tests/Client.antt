-- ===== src/Tests/Client.antt =====
-- A run of the theorem about the arrival timer.
use ai_xr_project.Base.{ℕ, ◌+◌, ◌≡◌, List, [], ◌∷◌, ◌++◌, Bool, true, false, leb}
use ai_xr_project.NavArrivalAutoEnd.{AutoEnd, idle_stage, announced, updates, updates-announced}

-- Times in whole tenths of a second: 4 s of dwelling, 2.5 s of the end message.
abbrev timer : AutoEnd ℕ
timer = record { dwell_sec = 40; end_message_sec = 25; stage = idle_stage; elapsed_sec = 0 }

abbrev poses : List (Bool × ℕ)
poses =
    (true, 30) ∷ (false, 5) ∷ (true, 30) ∷ (true, 10) ∷ (false, 20) ∷ (true, 5) ∷ (true, 90) ∷ []

updates-announced_example :
    announced timer.stage ++ (updates 0 (λ a b. a + b) (λ a b. leb b a) timer poses).1
    ≡ announced (updates 0 (λ a b. a + b) (λ a b. leb b a) timer poses).0.stage
updates-announced_example = updates-announced 0 (λ a b. a + b) (λ a b. leb b a) timer poses
