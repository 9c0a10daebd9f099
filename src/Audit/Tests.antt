-- ===== src/Audit/Tests.antt =====
-- Three entries, of which a sweep removes one, and a query of what is left.
use ai_kernel.Prelude.{
  List, ◌∷◌, [], arith, Memᴰ, Text, text_eq, codes, ℕ, ◌+◌, ◌≡◌, refl, min, length, keep_if, All,
  true, false, none, some,
}
use ai_kernel.Policy.Permission.{Principal, PrincipalKind, may_act_for}
use ai_kernel.Tools.Audit.{InvocationOutcome}
use ai_kernel.Audit.Record.{
  AuditEntry, AuditQuery, kind, is_about_the_trail, timestamp, principal, on_behalf_of, visible_to,
  concerns, matches,
}
use ai_kernel.Audit.Store.{
  InMemoryAuditStore, new, append, sweep_older_than, survives_retention, removed_or_failed, query,
  newest_first,
}
use ai_kernel.Audit.Store.Steps.{Operation, appends, sweeps, run}
use ai_kernel.Audit.Store.Account.{removed_in, claimed, run_accounted}
use ai_kernel.Audit.Store.Numbers.{IsAscending, IsDescending}
use ai_kernel.Audit.Store.Once.{IsLater, IsIssue, run_once}
use ai_kernel.Audit.Store.Answers.{is_answer, IsIncludedOrOlder, query-answers}

abbrev alice : Principal
alice = record { id = codes "alice"; kind = PrincipalKind.user; on_behalf_of = none }

abbrev called : ℕ → Text → AuditEntry
called t name = AuditEntry.invocation t (record {
  correlation = codes "c";
  tool = name;
  principal = alice;
  output_trust = none;
  outcome = InvocationOutcome.succeeded;
})

abbrev lost : AuditEntry
lost = AuditEntry.gap (record { timestamp = 5; missed = 2 })

abbrev first : InMemoryAuditStore
first = (append new (called 4 (codes "read"))).0

abbrev second : InMemoryAuditStore
second = (append first lost).0

abbrev third : InMemoryAuditStore
third = (append second (called 9 (codes "write"))).0

abbrev shortened : InMemoryAuditStore
shortened = (sweep_older_than third 20 6).0

abbrev history : List Operation
history =
    appends (called 4 (codes "read"))
    ∷ appends lost
    ∷ appends (called 9 (codes "write"))
    ∷ sweeps 20 6
    ∷ []

four_issued : (run history new).issued ≡ 4
unfolding run new append sweep_older_than removed_or_failed survives_retention kind
    is_about_the_trail timestamp
four_issued = refl

abbrev two_of_alice : AuditQuery
two_of_alice = record {
  principal = some (codes "alice");
  correlation = none;
  tool = none;
  kinds = [];
  since = none;
  until = none;
  refusals_only = false;
  limit = some 2;
}

run_accounted_example :
    length (run history new).records + removed_in (run history new).records
    ≡ (run history new).issued + claimed history
run_accounted_example = run_accounted history (rw four_issued (omega arith))

run_once_example :
    IsAscending 0 (run history new).records (run history new).issued
    × IsLater (run history new) (run (sweeps 30 9 ∷ []) (run history new))
    × IsIssue (run history new) (append (run history new) lost)
run_once_example = run_once history (sweeps 30 9 ∷ []) lost

query-answers_example :
    All
      (λ r. Memᴰ r (run history new).records × (is_answer two_of_alice alice r ≡ true))
      (query (run history new) two_of_alice alice)
    × IsDescending ((run history new).issued + 1) (query (run history new) two_of_alice alice) 0
    × (length (query (run history new) two_of_alice alice)
        ≡ min 2 (length (keep_if (is_answer two_of_alice alice) (run history new).records)))
    × All
        (IsIncludedOrOlder (query (run history new) two_of_alice alice))
        (keep_if (is_answer two_of_alice alice) (run history new).records)
query-answers_example = query-answers history two_of_alice alice

answered : length (query shortened two_of_alice alice) ≡ 2
unfolding new append sweep_older_than removed_or_failed survives_retention kind is_about_the_trail
    timestamp query newest_first visible_to matches concerns text_eq principal on_behalf_of
    may_act_for
answered = refl
