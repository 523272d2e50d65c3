-- ===== src/Pmc/Start.antt =====
-- The agent that `run` (main.go) starts with: `NewAgent` of pmc/agent.go, the first requests, and the
-- monitor. Whether the socket connects and what it answers is an argument.
use ts2phc_go.Common.{
  arith, ℕ, ◌+◌, ◌≡◌, refl, ◌%◌, Bool, true, false, not, ◌||◌, Option, none, some, List, [], ◌∷◌,
  replicate, if◌then◌else◌,
}
use ts2phc_go.Common.Int.{ℤ}
use ts2phc_go.Common.Time.{Time}
use ts2phc_go.Common.Word.{u16}
use ts2phc_go.Gm as Gm
use ts2phc_go.Pmc.{
  Agent, be16_at, send_request, note_dds, recv_response, query_dds, subscribe, mid_default_data_set,
  mid_subscribe_events_np, action_get, Received, data_of, read_error, short_header, not_management,
  unexpected_id, unexpected_action,
}

-- The socket: whether it connects, whether the first request goes out, and the datagram that is
-- read behind it.
pub record Socket : Type 0 where
  pub connects : Bool
  pub write_ok : Bool
  pub answer : Option (List ℕ)

-- `NewAgent` in the process `pid`, of a socket that connects.
abbrev new_agent : ℕ → Agent
new_agent pid = record {
  port_number = u16 pid;
  seq_id = 0;
  dds = record {
    two_step_flag = 0;
    clock_identity = replicate 8 0;
    number_ports = 0;
    clock_quality = replicate 4 0;
    priority1 = 0;
    priority2 = 0;
    clock_domain = 0;
    slave_only = 0;
  };
}

-- `QueryDDS` and `Subscribe`, whose errors are ignored: the agent and the requests.
unfoldable greet : Agent → Socket → Agent × List (List ℕ)
unfolding query_dds subscribe
greet a s =
    let (a', query, ok) = query_dds a s.write_ok s.answer in
    let (a'', subscription) = subscribe a' in (a'', query ∷ subscription ∷ [])

-- The agent, if there is one, and the requests.
unfoldable start_agent : Bool → Bool → ℕ → Socket → Option Agent × List (List ℕ)
unfolding greet
start_agent auto_cfg gm_mgmt pid s =
    let (a, requests) = greet (new_agent pid) s in
    if not (auto_cfg || gm_mgmt) || not s.connects
    then (none, [])
    else if auto_cfg
    then (some a, requests)
    else (some (new_agent pid), [])

-- `newGMMonitor`, where the agent is there.
abbrev start_monitor : Bool → Option Agent → ℤ → Time → Option Gm.Monitor
start_monitor gm_mgmt none holdover_sec now = none
start_monitor gm_mgmt (some a) holdover_sec now =
    if gm_mgmt then some (Gm.new_monitor holdover_sec now) else none

-- A request of a process, by its number: the process, the number and what it asks for.
IsNumbered : ℕ → ℕ → ℕ → List ℕ → Type 0
IsNumbered pid n mgt_id bytes =
    (be16_at bytes 28 ≡ pid % 65536) × (be16_at bytes 30 ≡ n) × (be16_at bytes 52 ≡ mgt_id)

-- `QueryDDS` leaves the port as it is, takes the next number, and sends one request.
IsAsked : Agent → Agent → Type 0
IsAsked a a' = (a'.port_number ≡ a.port_number) × (a'.seq_id ≡ u16 (a.seq_id + 1))

note_dds-IsAsked : (a a' : Agent) (r : Received) → IsAsked a a' → IsAsked a (note_dds a' r).0
unfolding IsAsked
note_dds-IsAsked a a' (data_of bs) h = h
note_dds-IsAsked a a' read_error h = h
note_dds-IsAsked a a' short_header h = h
note_dds-IsAsked a a' not_management h = h
note_dds-IsAsked a a' (unexpected_id n) h = h
note_dds-IsAsked a a' (unexpected_action n) h = h

query_dds-IsAsked :
    (a : Agent) (write_ok : Bool) (answer : Option (List ℕ))
    → let (a', request, ok) = query_dds a write_ok answer in
      IsAsked a a' × (request ≡ (send_request a mid_default_data_set action_get []).1)
unfolding query_dds send_request
query_dds-IsAsked a true answer = (
  note_dds-IsAsked a (send_request a mid_default_data_set action_get []).0
      (recv_response mid_default_data_set answer) (unfold IsAsked in (refl, refl)),
  refl,
)
query_dds-IsAsked a false answer = (unfold IsAsked in (refl, refl), refl)

-- With the autoconfiguration and a socket that connects, the agent asks for the data set and then for
-- the events, by the numbers 1 and 2 and in the name of its process, and it keeps the number of the
-- last request. What the socket answers does not matter.
start_agent-IsNumbered :
    (gm_mgmt write_ok : Bool) (answer : Option (List ℕ)) (pid : ℕ)
    → let s : Socket = record { connects = true; write_ok = write_ok; answer = answer } in
      (a : Agent) × (query : List ℕ) × (subscription : List ℕ) × (start_agent true gm_mgmt pid s
        ≡ (some a, query ∷ subscription ∷ []))
      × IsNumbered pid 1 mid_default_data_set query
      × IsNumbered pid 2 mid_subscribe_events_np subscription
      × (a.seq_id ≡ 2)
unfolding start_agent greet subscribe send_request IsNumbered IsAsked
start_agent-IsNumbered gm_mgmt write_ok answer pid =
    let ((port, seq), request) = query_dds-IsAsked (new_agent pid) write_ok answer in
    let (a, query, ok) = query_dds (new_agent pid) write_ok answer in
    let (a', subscription) = subscribe a in
    (
      a',
      query,
      subscription,
      refl,
      (rw request (omega arith), rw request refl, rw request refl),
      (rw port (omega arith), rw seq refl, refl),
      rw seq refl,
    )
