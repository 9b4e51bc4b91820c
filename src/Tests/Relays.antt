-- ===== src/Tests/Relays.antt =====
-- Runs of the relay between two descriptors.
use two_socks.Prelude.{ℕ, ◌≢◌, refl, true, false, [], ◌∷◌, arith}
use two_socks.Relay.{nothing_pending, copyloop, relay_data}
use two_socks.Relay.Way.{IsFaithful, Relayed}
use two_socks.Relay.Exact.{relay_data-IsFaithful}
use two_socks.Relay.Rounds.{IsLoop, copyloop-IsLoop}
use two_socks.Tests.Fixtures.{Script, scripted, start}

-- A chunk of three bytes, one of two, and the end.
abbrev chunks : Script
chunks = (1 ∷ 2 ∷ 3 ∷ []) ∷ (4 ∷ 5 ∷ []) ∷ []

apart : ◌≢◌ {A = ℕ} 4 7
apart e = omega (arith, e)

copyloop-IsLoop_example :
    IsLoop scripted 4 7 (start chunks) (copyloop scripted 9 4 7 (start chunks))
copyloop-IsLoop_example = copyloop-IsLoop scripted 4 7 9 (start chunks) apart

nothing_yet : Relayed 4 7 (start chunks) (start chunks) nothing_pending
nothing_yet true = record {
  bytes = [];
  arrived = refl;
  left = refl;
  counted = refl;
  small = omega arith;
}
nothing_yet false = record {
  bytes = [];
  arrived = refl;
  left = refl;
  counted = refl;
  small = omega arith;
}

relay_data-IsFaithful_example :
    IsFaithful scripted 65536 4 7
      (start chunks)
      (relay_data scripted 4 7 65536 true nothing_pending (start chunks))
relay_data-IsFaithful_example =
    relay_data-IsFaithful scripted 4 7 apart true 65536 (start chunks) (start chunks)
      nothing_pending nothing_yet
