-- ===== src/Handlers/Broadcast/Counts.antt =====
-- What a broadcast counts and whom it keeps (sqa-backend/src/handlers.rs).
use sqa.Base.{
  ℕ, ◌+◌, ◌*◌, ◌≤◌, ◌≡◌, refl, ap, ◌∙◌, none, some, List, [], ◌∷◌, length, Result, ok, err,
  if◌then◌else◌, arith, is_some, Outcome, done, ◌>>=◌, length-map,
}
use sqa.Base.HashMap
use sqa.Base.HashMap.{HashMap, get-insert}
use sqa.Handlers.{UdpClient, ReplyData, ReplyDataType, ConnData, Wire, Sent, send_raw, send_tcp}
use sqa.Handlers.Broadcast.Kept.{
  heard, Distinct, fresh_at, heard-retain_fresh, heard-send_raw, send_tcp-clients,
}
use sqa.Handlers.Broadcast.{
  retain_fresh, subscribed_addrs, count, send_each, refresh, broadcast, on_external,
}

count_bounds : (n : ℕ) (r : Result (Unit {0})) → (n ≤ count n r) × (count n r ≤ n + 1)
count_bounds n (ok u) = (omega arith, omega arith)
count_bounds n (err e) = (omega arith, omega arith)

send_each_bounds :
    {Udp Sock : Type 0} (send : ConnData Udp Sock → ℕ → Sent Udp Sock) (addrs : List ℕ)
    (d : ConnData Udp Sock) (n : ℕ)
    → (n ≤ (send_each send addrs d n).1) × ((send_each send addrs d n).1 ≤ n + length addrs)
unfolding send_each
send_each_bounds send [] d n = (omega arith, omega arith)
send_each_bounds send (addr ∷ addrs) d n = omega (
  arith,
  send_each_bounds send addrs (send d addr).0 (count n (send d addr).1),
  count_bounds n (send d addr).1,
)

module _ {Msg Pkt Udp Sock : Type 0} (wire : Wire Msg Pkt Udp Sock) where
  heard-send_each :
      (send : ConnData Udp Sock → ℕ → Sent Udp Sock) (k : ℕ)
      → ((d : ConnData Udp Sock) (addr : ℕ)
          → heard (send d addr).0.udp_clients k ≡ heard d.udp_clients k)
      → (addrs : List ℕ) (d : ConnData Udp Sock) (n : ℕ)
      → heard (send_each send addrs d n).0.udp_clients k ≡ heard d.udp_clients k
  unfolding send_each
  heard-send_each send k g [] d n = refl
  heard-send_each send k g (addr ∷ addrs) d n =
      heard-send_each send k g addrs (send d addr).0 (count n (send d addr).1) ∙ g d addr

  -- After a broadcast the UDP clients are those heard from within 30 seconds, and when each was heard
  -- from stays the same. The number given back is at least that of these clients, even if no message
  -- could be sent, and at most twice that number and one for each subscribed TCP client.
  pub broadcast_lem :
      (now : ℕ) (d : ConnData Udp Sock) (msg : Msg)
      → Distinct d.udp_clients
      → ((k : ℕ)
          → heard (broadcast wire now d msg).0.udp_clients k ≡ fresh_at now (heard d.udp_clients k))
        × (length (retain_fresh now d.udp_clients) ≤ (broadcast wire now d msg).1)
        × ((broadcast wire now d msg).1
            ≤ 2 * length (retain_fresh now d.udp_clients) + length (subscribed_addrs d.tcp_clients))
  unfolding broadcast
  broadcast_lem now d msg u =
      let fresh = retain_fresh now d.udp_clients in
      let udp = HashMap.keys fresh in
      let kept : ConnData Udp Sock = record d { udp_clients = fresh } in
      let first = send_each (λ e addr. send_raw wire e addr msg) udp kept (length udp) in
      let a = send_each_bounds (λ e addr. send_raw wire e addr msg) udp kept (length udp) in
      let b =
        send_each_bounds (λ e addr. send_tcp wire e addr msg) (subscribed_addrs d.tcp_clients)
          first.0 first.1 in
      (
        λ k.
            heard-send_each (λ e addr. send_tcp wire e addr msg) k
              (λ e addr. ap (λ c. heard c k) (send_tcp-clients wire e addr msg))
              (subscribed_addrs d.tcp_clients) first.0 first.1
            ∙ heard-send_each (λ e addr. send_raw wire e addr msg) k
                (λ e addr. heard-send_raw wire e addr k msg) udp kept (length udp)
            ∙ heard-retain_fresh now d.udp_clients k u,
        omega (arith, a, b, length-map (λ e. e.0) fresh),
        omega (arith, a, b, length-map (λ e. e.0) fresh),
      )

  heard-refresh :
      (now : ℕ) (clients : HashMap UdpClient) (k : ℕ)
      → heard (refresh now clients) k ≡ (if is_some (HashMap.get k clients) then some now else none)
  unfolding refresh HashMap.get
  heard-refresh now [] k = refl
  heard-refresh now ((addr, cli) ∷ clients) k = ground (arith, heard-refresh now clients k)

  -- A command that arrives by UDP is handed to the handler with every UDP client counted as just
  -- heard from, whoever sent it.
  pub on_external-refresh :
      {H C : Type 0}
      (external : H → ConnData Udp Sock → C → ReplyData → Outcome (H × ConnData Udp Sock)) (now : ℕ)
      (h : H) (d : ConnData Udp Sock) (pkt : C) (rd : ReplyData)
      → rd.ty ≡ ReplyDataType.udp_request
      → (d' : ConnData Udp Sock) × (on_external wire external now h d (ok pkt) rd
          ≡ (external h d' pkt rd >>= λ r. done (r.0, r.1, ok tt)))
        × ((k : ℕ)
            → heard d'.udp_clients k
              ≡ (if is_some (HashMap.get k d.udp_clients) then some now else none))
  unfolding on_external
  on_external-refresh external now h d pkt rd e = (
    record d { udp_clients = refresh now d.udp_clients },
    rw (e, on_external) refl,
    λ k. heard-refresh now d.udp_clients k,
  )
