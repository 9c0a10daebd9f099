-- ===== src/Tools/Ledger/Monotone.antt =====
-- Trust only falls, crates/tools/src/trust.rs.
use ai_kernel.Prelude.{Text, text_eq, text_eq_refl, ◌≤◌, ◌≡◌, true, arith, length, ◌⊎◌}
use ai_kernel.Tools.Provenance.{Trust, untrusted}
use ai_kernel.Tools.Ledger.{InMemoryTrustLedger, contains, observe, trust_of, tainted_count}

-- A scope that has been seen with untrusted content is untrusted from then on.
pub observe-untrusted :
    (l : InMemoryTrustLedger) (scope : Text)
    → trust_of (observe l scope untrusted) scope ≡ untrusted
unfolding trust_of observe contains
observe-untrusted l scope = ground (arith, text_eq_refl scope)

-- No observation, of whatever scope and trust, makes an untrusted scope trusted again, also not
-- when the ledger saturates and forgets which scopes were tainted.
pub observe-monotone :
    (l : InMemoryTrustLedger) (seen scope : Text) (trust : Trust)
    → trust_of l scope ≡ untrusted
    → trust_of (observe l seen trust) scope ≡ untrusted
unfolding trust_of observe contains
observe-monotone l seen scope trust h = ground arith

abbrev pub IsBounded : InMemoryTrustLedger → Type 0
IsBounded l = length l.tainted ≤ l.capacity

-- The ledger never holds more scopes than its capacity.
pub observe-IsBounded :
    (l : InMemoryTrustLedger) (scope : Text) (trust : Trust)
    → IsBounded l
    → IsBounded (observe l scope trust)
unfolding observe
observe-IsBounded l scope trust h = ground arith

-- A ledger calls a scope untrusted only with cause: the scope was untrusted before, or untrusted
-- content was seen in it, or the ledger was full.
pub observe-cause :
    (l : InMemoryTrustLedger) (seen scope : Text) (trust : Trust)
    → trust_of (observe l seen trust) scope ≡ untrusted
    → (trust_of l scope ≡ untrusted)
      ⊎ ((trust ≡ untrusted) × ((text_eq seen scope ≡ true) ⊎ (l.capacity ≤ tainted_count l)))
unfolding trust_of observe contains tainted_count
observe-cause l seen scope trust h = ground arith
