-- ===== src/SafeHttp/Tests.antt =====
-- Verdicts on addresses.
use revoked.Prelude.{◌≡◌, refl, true, false, not, ◌&&◌, ◌||◌, some, arith}
use revoked.SafeHttp.{is_blocked_ip}
use revoked.SafeHttp.Ranges.{v4, number, never_allowed, operator_decides, blocked_networks}

-- The metadata endpoint of a cloud, and this machine.
metadata : is_blocked_ip true (some (v4 169 254 169 254)) ≡ true
unfolding is_blocked_ip
metadata = refl

local : is_blocked_ip true (some (v4 127 0 0 1)) ≡ false
unfolding is_blocked_ip
local = refl

blocked_networks_example :
    is_blocked_ip false (some (v4 172 31 0 1))
    ≡ (never_allowed (number 172 31 0 1) || (operator_decides (number 172 31 0 1) && not false))
blocked_networks_example =
    blocked_networks 172 31 0 1 (omega arith) (omega arith) (omega arith) (omega arith) false
