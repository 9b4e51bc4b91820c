-- ===== src/System/Trace.antt =====
-- What a trace says was received and sent on a descriptor, oldest first.
use two_socks.Prelude.{ℕ, ◌+◌, List, [], ◌∷◌, ◌++◌, ◌==◌, if◌then◌else◌}
use two_socks.System.{Event, Effect, received, sent, opened, closed_fd, emitted}

abbrev pub received_from : ℕ → List Effect → List ℕ
received_from fd [] = []
received_from fd (received fd' bytes ∷ t) = received_from fd t ++ (if fd' == fd then bytes else [])
received_from fd (_ ∷ t) = received_from fd t

abbrev pub sent_to : ℕ → List Effect → List ℕ
sent_to fd [] = []
sent_to fd (sent fd' bytes ∷ t) = sent_to fd t ++ (if fd' == fd then bytes else [])
sent_to fd (_ ∷ t) = sent_to fd t

-- How often a descriptor was opened and closed.
abbrev pub opens : ℕ → List Effect → ℕ
opens fd [] = 0
opens fd (opened fd' ∷ t) = opens fd t + (if fd' == fd then 1 else 0)
opens fd (_ ∷ t) = opens fd t

abbrev pub closes : ℕ → List Effect → ℕ
closes fd [] = 0
closes fd (closed_fd fd' ∷ t) = closes fd t + (if fd' == fd then 1 else 0)
closes fd (_ ∷ t) = closes fd t

-- The events that were emitted, oldest first.
abbrev pub events : List Effect → List Event
events [] = []
events (emitted e ∷ t) = events t ++ e ∷ []
events (_ ∷ t) = events t
