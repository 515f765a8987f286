-- ===== src/Service/Raise.antt =====
-- `workerFinding`, `resolveFinding` and `workerEvent` of internal/service/worker.go.
use platform_ipam.Prelude.{
  ℕ, String, [], ◌∷◌, ◌++◌, Option, none, some, lookup, insert, ◌==◌, string_eq, if◌then◌else◌,
}
use platform_ipam.Domain.Rows.{Allocation, Finding}
use platform_ipam.Domain.State.{State}
use platform_ipam.Service.Digests.{Digests, finding_id}

abbrev pub new_finding : String → Allocation → String → String → ℕ → Finding
new_finding key a code severity at = record {
  id = key;
  tenant_id = a.tenant_id;
  domain_id = a.domain_id;
  allocation_id = a.id;
  code = code;
  severity = severity;
  status = "OPEN";
  account_id = a.account_id;
  region = a.region;
  resource_type = "";
  resource_id = "";
  first_observed_at = at;
  last_observed_at = at;
}

abbrev pub reopened : Option Finding → Finding → ℕ → Finding
reopened none fresh at = fresh
reopened (some f) fresh at =
    if f.id == "" then fresh else record f { status = "OPEN"; last_observed_at = at }

unfoldable pub worker_finding : Digests → Allocation → String → String → ℕ → State → State
unfolding finding_id
worker_finding h a code severity at st =
    let key = finding_id h code a.id in
    record st {
      findings =
          insert key (reopened (lookup key st.findings) (new_finding key a code severity at) at)
            st.findings;
    }

unfoldable pub resolve_finding : Digests → Allocation → String → State → State
unfolding finding_id
resolve_finding h a code st = elim (lookup (finding_id h code a.id) st.findings) [
  | none ↦ st
  | some f ↦ record st {
    findings = insert (finding_id h code a.id) (record f { status = "RESOLVED" }) st.findings;
  }
]

unfoldable pub worker_event : String → Allocation → String → ℕ → State → State
worker_event event_id a action at st = record st {
  events =
      st.events
      ++ record {
        id = event_id;
        allocation_id = a.id;
        tenant_id = a.tenant_id;
        actor = "reconciliation-worker";
        action = action;
        at = at;
        revision = a.revision;
      }
        ∷ [];
}
