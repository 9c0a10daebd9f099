-- ===== src/Tools/Provenance.antt =====
-- crates/api/src/provenance.rs: trust and reach.
use ai_kernel.Prelude.{Text, codes, Bool, true, false}

pub data Trust : Type 0 where
  trusted untrusted : Trust

pub data Reach : Type 0 where
  contained mutating external : Reach

unfoldable pub is_untrusted : Trust → Bool
is_untrusted trusted = false
is_untrusted untrusted = true

-- `Trust::min_with`: the larger in the order of declaration.
unfoldable pub min_with : Trust → Trust → Trust
min_with trusted t = t
min_with untrusted t = untrusted

unfoldable pub is_contained : Reach → Bool
is_contained contained = true
is_contained _ = false

unfoldable pub trust_text : Trust → Text
trust_text trusted = codes "trusted"
trust_text untrusted = codes "untrusted"

unfoldable pub reach_text : Reach → Text
reach_text contained = codes "contained"
reach_text mutating = codes "mutating"
reach_text external = codes "external"
