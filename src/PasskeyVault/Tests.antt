-- ===== src/PasskeyVault/Tests.antt =====
-- Runs of one-time keys.
use revoked.Prelude.{◌≡◌, refl, ℕ, String, List, [], ◌∷◌}
use revoked.PasskeyVault.{Entry, find_oldest, make_room, put}

abbrev hash : String → String
hash key = key

abbrev three : List (Entry ℕ)
three =
    record { hash = "a"; value = 1; expires = 9 }
    ∷ record { hash = "b"; value = 2; expires = 7 }
    ∷ record { hash = "c"; value = 3; expires = 8 }
    ∷ []

-- The oldest two give way.
evicts :
    put hash 2 "d" 4 10 5 three
    ≡ record { hash = "d"; value = 4; expires = 15 }
      ∷ record { hash = "a"; value = 1; expires = 9 }
      ∷ []
unfolding put make_room find_oldest
evicts = refl
