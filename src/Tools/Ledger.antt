-- ===== src/Tools/Ledger.antt =====
-- crates/tools/src/trust.rs: the ledger that remembers the tainted scopes in the process.
pub mod Monotone
use ai_kernel.Prelude.{
  Text, text_eq, ℕ, Bool, true, false, ◌||◌, List, [], ◌∷◌, any, length, leb, if◌then◌else◌,
}
use ai_kernel.Tools.Provenance.{Trust, trusted, untrusted, is_untrusted}

pub data TrustEnforcement : Type 0 where
  approval denial observation : TrustEnforcement

-- The hash set of scopes is the list of its members, each once.
pub record InMemoryTrustLedger : Type 0 where
  pub tainted : List Text
  pub saturated : Bool
  pub capacity : ℕ

unfoldable pub with_capacity : ℕ → InMemoryTrustLedger
with_capacity capacity = record { tainted = []; saturated = false; capacity = capacity }

unfoldable pub is_saturated : InMemoryTrustLedger → Bool
is_saturated l = l.saturated

unfoldable pub tainted_count : InMemoryTrustLedger → ℕ
tainted_count l = length l.tainted

-- `HashSet::contains`.
unfoldable pub contains : List Text → Text → Bool
contains [] scope = false
contains (s ∷ scopes) scope = text_eq s scope || contains scopes scope

-- The part of `observe` under the lock.
taint : InMemoryTrustLedger → Text → InMemoryTrustLedger
taint l scope =
    if l.saturated || contains l.tainted scope
    then l
    else if leb l.capacity (length l.tainted)
    then record l { saturated = true; tainted = [] }
    else record l { tainted = scope ∷ l.tainted }

unfoldable pub observe : InMemoryTrustLedger → Text → Trust → InMemoryTrustLedger
unfolding taint is_untrusted
observe l scope trust = if is_untrusted trust then taint l scope else l

unfoldable pub trust_of : InMemoryTrustLedger → Text → Trust
trust_of l scope = if l.saturated || contains l.tainted scope then untrusted else trusted
