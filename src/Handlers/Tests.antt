-- ===== src/Handlers/Tests.antt =====
-- The theorems on the connections with a wire that takes every message.
use sqa.Base.{
  ℕ, ◌+◌, ◌*◌, ◌≤◌, ◌≡◌, refl, true, none, some, List, [], ◌∷◌, ◌++◌, length, String, Outcome, done,
  ◌>>=◌, ok, is_some, if◌then◌else◌,
}
use sqa.Base.HashMap
use sqa.Handlers.{ReplyData, ReplyDataType, ConnData, Wire}
use sqa.Handlers.Broadcast.{retain_fresh, subscribed_addrs, broadcast, on_external}
use sqa.Handlers.Broadcast.Kept.{heard, Distinct, fresh_at}
use sqa.Handlers.Broadcast.Counts.{broadcast_lem, on_external-refresh}

-- Messages are strings, a packet is one of 10 bytes, and a socket keeps what it took.
abbrev taking : Wire String String (List (ℕ × String)) (List String)
taking = record {
  encode = λ msg. ok msg;
  size = λ pkt. 10;
  send_udp = λ sent addr pkt. (sent ++ (addr, pkt) ∷ [], ok tt);
  send_tcp = λ sent msg. (sent ++ msg ∷ [], ok tt);
  oversized_reply = "oversized";
  deser_failed = λ e. e;
  show = λ addr. "address";
}

-- Two UDP clients, one of which has been silent for long, and a subscribed TCP client.
abbrev three : ConnData (List (ℕ × String)) (List String)
three = record {
  framed = [];
  udp_clients =
      (1, record { subscribed_at = 5; tcp_addr = none })
      ∷ (2, record { subscribed_at = 50000000000; tcp_addr = some 3 })
      ∷ [];
  tcp_clients = (3, record { sock = []; subscribed = true }) ∷ [];
}

three-Distinct : Distinct three.udp_clients
unfolding HashMap.get
three-Distinct = (refl, (refl, tt))

-- One UDP client is left, which counts twice.
count_three : (broadcast taking 60000000000 three "hello").1 ≡ 3
unfolding broadcast HashMap.get HashMap.insert sqa.Handlers.send_tcp sqa.Handlers.send_raw
count_three = refl

broadcast_lem_example :
    ((k : ℕ)
      → heard (broadcast taking 60000000000 three "hello").0.udp_clients k
        ≡ fresh_at 60000000000 (heard three.udp_clients k))
    × (length (retain_fresh 60000000000 three.udp_clients)
        ≤ (broadcast taking 60000000000 three "hello").1)
    × ((broadcast taking 60000000000 three "hello").1
        ≤ 2 * length (retain_fresh 60000000000 three.udp_clients)
          + length (subscribed_addrs three.tcp_clients))
broadcast_lem_example = broadcast_lem taking 60000000000 three "hello" three-Distinct

abbrev ignoring :
    ℕ
    → ConnData (List (ℕ × String)) (List String)
    → String
    → ReplyData
    → Outcome (ℕ × ConnData (List (ℕ × String)) (List String))
ignoring h d pkt rd = done (h, d)

abbrev stranger : ReplyData
stranger = record { ty = ReplyDataType.udp_request; addr = 77 }

on_external-refresh_example :
    (d' : ConnData (List (ℕ × String)) (List String)) × (on_external taking ignoring 60000000000 0
        three
        (ok "ping")
        stranger
      ≡ (ignoring 0 d' "ping" stranger >>= λ r. done (r.0, r.1, ok tt)))
    × ((k : ℕ)
        → heard d'.udp_clients k
          ≡ (if is_some (HashMap.get k three.udp_clients) then some 60000000000 else none))
on_external-refresh_example =
    on_external-refresh taking ignoring 60000000000 0 three "ping" stranger refl
