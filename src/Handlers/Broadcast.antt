-- ===== src/Handlers/Broadcast.antt =====
-- Sending to all clients, and the receipt of a message (sqa-backend/src/handlers.rs).
pub mod Kept
pub mod Counts
use sqa.Base.{
  ℕ, ◌+◌, ◌-◌, ◌*◌, Bool, true, false, Option, none, some, List, [], ◌∷◌, map, length, Outcome,
  done, panic, ◌>>=◌, Result, ok, err, leb, ◌==◌, if◌then◌else◌,
}
use sqa.Base.HashMap
use sqa.Base.HashMap.{HashMap}
use sqa.Handlers.{
  UdpClient, TcpClient, ReplyData, ReplyDataType, ConnData, Wire, Sent, send_raw, send_tcp, respond,
}

-- 30 seconds.
abbrev pub lease : ℕ
lease = 30 * 1000000000

-- Clients that have been silent for longer are dropped.
unfoldable pub retain_fresh : ℕ → HashMap UdpClient → HashMap UdpClient
retain_fresh now [] = []
retain_fresh now ((addr, party) ∷ clients) =
    if leb (now - party.subscribed_at) lease
    then (addr, party) ∷ retain_fresh now clients
    else retain_fresh now clients

unfoldable pub subscribed_addrs : {Sock : Type 0} → HashMap (TcpClient Sock) → List ℕ
subscribed_addrs [] = []
subscribed_addrs ((addr, cli) ∷ clients) =
    if cli.subscribed then addr ∷ subscribed_addrs clients else subscribed_addrs clients

abbrev pub count : ℕ → Result (Unit {0}) → ℕ
count n (ok u) = n + 1
count n (err e) = n

-- A message that cannot be sent is passed over.
unfoldable pub send_each :
    {Udp Sock : Type 0}
    → (ConnData Udp Sock → ℕ → Sent Udp Sock)
    → List ℕ
    → ConnData Udp Sock
    → ℕ
    → ConnData Udp Sock × ℕ
send_each send [] d n = (d, n)
send_each send (addr ∷ addrs) d n = let (d', r) = send d addr in send_each send addrs d' (count n r)

-- What arrives for all UDP clients counts as heard from each of them.
unfoldable pub refresh : ℕ → HashMap UdpClient → HashMap UdpClient
refresh now [] = []
refresh now ((addr, party) ∷ clients) =
    (addr, if addr == addr then record party { subscribed_at = now } else party)
    ∷ refresh now clients

module _ {Msg Pkt Udp Sock : Type 0} (wire : Wire Msg Pkt Udp Sock) where
  -- The number that is given back starts with one for each UDP client.
  unfoldable pub broadcast : ℕ → ConnData Udp Sock → Msg → ConnData Udp Sock × ℕ
  unfolding retain_fresh subscribed_addrs send_each
  broadcast now d pdata =
      let fresh = retain_fresh now d.udp_clients in
      let udp = HashMap.keys fresh in
      let tcp = subscribed_addrs d.tcp_clients in
      let (d', n) =
        send_each (λ e addr. send_raw wire e addr pdata) udp (record d { udp_clients = fresh })
          (length udp) in
      send_each (λ e addr. send_tcp wire e addr pdata) tcp d' n

  -- A handler of state `H`; the command, of type `C`, is decoded or the error is given.
  unfoldable pub on_external :
      {H C : Type 0}
      → (H → ConnData Udp Sock → C → ReplyData → Outcome (H × ConnData Udp Sock))
      → ℕ
      → H
      → ConnData Udp Sock
      → Result C
      → ReplyData
      → Outcome (H × ConnData Udp Sock × Result (Unit {0}))
  unfolding refresh respond
  on_external external now h d (ok pkt) rd =
      external h
        (elim rd.ty [
          | ReplyDataType.udp_request ↦ record d { udp_clients = refresh now d.udp_clients }
          | ReplyDataType.tcp_request ↦ d
        ])
        pkt rd
      >>= λ r. done (r.0, r.1, ok tt)
  on_external external now h d (err e) rd =
      let (d', r) = respond wire d rd (wire.deser_failed e) in done (h, d', r)
