-- ===== src/Deadlock/Detector.antt =====
-- DeadlockDetector: the scan that runs once a round. The wait-for graph's cycles are reported
-- first, then the resources that stayed contested for enough rounds, each situation once.
pub mod Reports
use tarmac.Prelude.{
  ℕ, suc, ◌+◌, String, Bool, true, false, not, ◌&&◌, Option, none, some, List, [], ◌∷◌, ◌++◌, map,
  filterb, findb, leb, if◌then◌else◌,
}
use tarmac.Prelude.Text.{◌==◌, member, sorted, sort_by, text_leb, concat, padded, show_ℕ}
use tarmac.Prelude.Dict.{has_key, at_key_or, put_key}
use tarmac.Schemas.{ClaimRecord, is_granted}
use tarmac.Ledger.Tables.{Ledger, Claim, Allocation, is_some, find_claim}
use tarmac.Ledger.Queries.{blocked_claims, append_to, claim_leb}
use tarmac.Currency.Bank.{Contest}
use tarmac.Deadlock.Cycles.{Graph, find_cycles, sorted_set}

pub data Kind : Type 0 where
  cycle contested : Kind

pub record Deadlock : Type 0 where
  pub id : String
  pub kind : Kind
  pub round : ℕ
  pub resources : List String
  pub agents : List String
  pub claims : List String
  pub detail : String

pub record Detector : Type 0 where
  pub contested_rounds : ℕ
  pub streaks : List (String × ℕ)
  pub fired : List String
  pub seq : ℕ

-- f"d-{n:02d}"
abbrev pub deadlock_id_text : ℕ → String
deadlock_id_text n = String.◌∷◌ "d" (String.◌∷◌ "-" (padded 2 n))

unfoldable pub reset_resource : String → Detector → Detector
reset_resource r d = record d { streaks = filterb (λ entry. not (entry.0 == r)) d.streaks }

-- ClaimLedger.holder_agents: agent -> ids of its claims with an allocation on the resource.
abbrev pub on_claim : String → String → Allocation → Bool
on_claim r c a = (a.resource == r) && (a.claim_id == c)

unfoldable pub group_by_agent :
    List (String × List String) → List Claim → List (String × List String)
group_by_agent out [] = out
group_by_agent out (c ∷ cs) = group_by_agent (append_to c.agent c.id out) cs

unfoldable pub holder_agents : String → Ledger → List (String × List String)
holder_agents r l =
    group_by_agent []
      (sort_by claim_leb (filterb (λ c. is_some (findb (on_claim r c.id) l.allocations)) l.claims))

-- Sets of names for a key.
pub record Info : Type 0 where
  pub names : List String
  pub claims : List String

abbrev pub add_info :
    String → List String → List String → List (String × Info) → List (String × Info)
add_info k names claims rows =
    let old = at_key_or (record { names = []; claims = [] }) k rows in
    put_key k (record { names = old.names ++ names; claims = old.claims ++ claims }) rows

pub record Waits : Type 0 where
  pub edges : Graph
  pub involved : List (String × Info)

-- The edges of one blocked claim to the other holders of its resource.
unfoldable pub add_waits : ClaimRecord → List (String × List String) → Waits → Waits
add_waits rec [] w = w
add_waits rec ((holder, claim_ids) ∷ rest) w =
    let claimant = rec.proposal.agent in
    let res = rec.proposal.resource in
    let waiting : Waits = record {
      edges = append_to claimant holder w.edges;
      involved =
          add_info holder (res ∷ []) claim_ids
            (add_info claimant (res ∷ []) (rec.id ∷ []) w.involved);
    } in
    add_waits rec rest (if holder == claimant then w else waiting)

unfoldable pub wait_graph : Ledger → List ClaimRecord → Waits → Waits
wait_graph l [] w = w
wait_graph l (rec ∷ recs) w =
    wait_graph l recs (add_waits rec (holder_agents rec.proposal.resource l) w)

unfoldable pub union_of : (Info → List String) → List String → List (String × Info) → List String
union_of part [] rows = []
union_of part (a ∷ agents) rows =
    part (at_key_or (record { names = []; claims = [] }) a rows) ++ union_of part agents rows

unfoldable pub joined_by : String → List String → List String
joined_by sep [] = []
joined_by sep (s ∷ []) = s ∷ []
joined_by sep (s ∷ t ∷ rest) = s ∷ sep ∷ joined_by sep (t ∷ rest)

-- A deadlock under its key, unless the key has fired.
unfoldable pub fire : String → (String → Deadlock) → Detector → List Deadlock × Detector
fire key deadlock d = if member key d.fired then ([], d) else (
  deadlock (deadlock_id_text (suc d.seq)) ∷ [],
  record d { fired = key ∷ d.fired; seq = suc d.seq },
)

-- Two steps of a scan, with what both report.
unfoldable pub and_then :
    (Detector → List Deadlock × Detector)
    → (Detector → List Deadlock × Detector)
    → Detector
    → List Deadlock × Detector
and_then first second d =
    let (found, d') = first d in let (more, d'') = second d' in (found ++ more, d'')

unfoldable pub cycle_deadlock : List (String × Info) → List String → ℕ → String → Deadlock
cycle_deadlock involved comp round id = record {
  id = id;
  kind = cycle;
  round = round;
  resources = sorted_set (union_of (λ i. i.names) comp involved);
  agents = comp;
  claims = sorted_set (union_of (λ i. i.claims) comp involved);
  detail = concat ("wait-for cycle among " ∷ joined_by ", " comp);
}

abbrev pub cycle_key : Deadlock → String
cycle_key x = concat ("cycle:" ∷ joined_by "," x.agents ++ ":" ∷ joined_by "," x.claims)

unfoldable pub report_cycles :
    List (String × Info) → ℕ → List (List String) → Detector → List Deadlock × Detector
report_cycles involved round [] d = ([], d)
report_cycles involved round (comp ∷ comps) d =
    and_then
      (fire (cycle_key (cycle_deadlock involved comp round ""))
        (cycle_deadlock involved comp round))
      (report_cycles involved round comps) d

-- The resources of blocked claims, with the agents and claims on both sides.
unfoldable pub add_holders :
    String → List (String × List String) → List (String × Info) → List (String × Info)
add_holders r [] rows = rows
add_holders r ((holder, claim_ids) ∷ rest) rows =
    add_holders r rest (add_info r (holder ∷ []) claim_ids rows)

unfoldable pub contested_claims :
    Ledger → List ClaimRecord → List (String × Info) → List (String × Info)
contested_claims l [] rows = rows
contested_claims l (rec ∷ recs) rows =
    let r = rec.proposal.resource in
    contested_claims l recs
      (add_holders r (holder_agents r l) (add_info r (rec.proposal.agent ∷ []) (rec.id ∷ []) rows))

-- The resources of granted claims under an open contest; an unknown claim is passed over.
unfoldable pub challenge : Contest → Option Claim → List (String × Info) → List (String × Info)
challenge c none rows = rows
challenge c (some target) rows =
    if is_granted target.status
    then add_info target.resource (c.agent ∷ target.agent ∷ []) (target.id ∷ []) rows
    else rows

unfoldable pub contested_grants :
    Ledger → List Contest → List (String × Info) → List (String × Info)
contested_grants l [] rows = rows
contested_grants l (c ∷ cs) rows =
    contested_grants l cs (challenge c (find_claim c.target_claim l) rows)

unfoldable pub streak_deadlock : String → Info → ℕ → ℕ → String → Deadlock
streak_deadlock r info streak round id = record {
  id = id;
  kind = contested;
  round = round;
  resources = r ∷ [];
  agents = sorted_set info.names;
  claims = sorted_set info.claims;
  detail = concat (r ∷ " contested for " ∷ show_ℕ streak ∷ " consecutive rounds" ∷ []);
}

abbrev pub streak_key : String → Info → String
streak_key r info = concat ("contested:" ∷ r ∷ ":" ∷ joined_by "," (sorted_set info.claims))

-- One contested resource: its streak grows, and is reported when it is long enough and no cycle
-- of this round has the resource.
unfoldable pub report_streak : List String → ℕ → String × Info → Detector → List Deadlock × Detector
report_streak in_cycles round (r, info) d =
    let streak = suc (at_key_or 0 r d.streaks) in
    let longer : Detector = record d { streaks = put_key r streak d.streaks } in
    if not (member r in_cycles) && leb d.contested_rounds streak
    then fire (streak_key r info) (streak_deadlock r info streak round) longer
    else ([], longer)

unfoldable pub report_streaks :
    List String → ℕ → List (String × Info) → Detector → List Deadlock × Detector
report_streaks in_cycles round [] d = ([], d)
report_streaks in_cycles round (entry ∷ rest) d =
    and_then (report_streak in_cycles round entry) (report_streaks in_cycles round rest) d

info_leb : String × Info → String × Info → Bool
info_leb (r, _) (s, _) = text_leb r s

-- The streaks of resources that are contested no more end.
unfoldable pub end_streaks : List (String × Info) → Detector → Detector
end_streaks now d = record d { streaks = filterb (λ entry. has_key entry.0 now) d.streaks }

unfoldable pub resources_of : List Deadlock → List String
resources_of [] = []
resources_of (x ∷ xs) = x.resources ++ resources_of xs

unfoldable pub scan : Ledger → List Contest → ℕ → Detector → List Deadlock × Detector
unfolding info_leb
scan l open_contests round d =
    let blocked = blocked_claims l in
    let waits = wait_graph l blocked (record { edges = []; involved = [] }) in
    let (cycles, d') = report_cycles waits.involved round (find_cycles waits.edges) d in
    let now = contested_grants l open_contests (contested_claims l blocked []) in
    let (streaks, d'') =
      report_streaks (resources_of cycles) round (sort_by info_leb now) (end_streaks now d') in
    (cycles ++ streaks, d'')
