-- ===== src/Handlers/Broadcast/Kept.antt =====
-- When each UDP client was heard from, which sending does not change
-- (sqa-backend/src/handlers.rs).
use sqa.Base.{
  ℕ, ◌-◌, ◌≡◌, refl, ap, ◌∙◌, Option, none, some, [], ◌∷◌, Result, ok, err, leb, ltb, if◌then◌else◌,
  arith, Bool-cases, Option-cases, inl, inr,
}
use sqa.Base.HashMap
use sqa.Base.HashMap.{HashMap, get-insert}
use sqa.Handlers.{
  UdpClient, TcpClient, ConnData, Wire, send_raw, send_tcp, to_udp, to_tcp, unassociate,
  send_oversized, send_encoded, udp_max_packet_size,
}
use sqa.Handlers.Broadcast.{lease, retain_fresh}

-- When a client of an address last subscribed or was heard from.
abbrev pub heard : HashMap UdpClient → ℕ → Option ℕ
heard clients k = elim (HashMap.get k clients) [ none ↦ none | some cli ↦ some cli.subscribed_at ]

-- No address occurs twice.
abbrev pub Distinct : HashMap UdpClient → Type 0
Distinct [] = Unit {0}
Distinct ((addr, cli) ∷ clients) = (HashMap.get addr clients ≡ none) × Distinct clients

abbrev pub fresh_at : ℕ → Option ℕ → Option ℕ
fresh_at now none = none
fresh_at now (some at) = if leb (now - at) lease then some at else none

get-retain_fresh-none :
    (now : ℕ) (clients : HashMap UdpClient) (k : ℕ)
    → HashMap.get k clients ≡ none
    → HashMap.get k (retain_fresh now clients) ≡ none
unfolding retain_fresh HashMap.get
get-retain_fresh-none now [] k h = refl
get-retain_fresh-none now ((addr, cli) ∷ clients) k h =
    ground (arith, get-retain_fresh-none now clients k)

pub heard-retain_fresh :
    (now : ℕ) (clients : HashMap UdpClient) (k : ℕ)
    → Distinct clients
    → heard (retain_fresh now clients) k ≡ fresh_at now (heard clients k)
unfolding retain_fresh HashMap.get
heard-retain_fresh now [] k u = refl
heard-retain_fresh now ((addr, cli) ∷ clients) k u =
    ground (arith, heard-retain_fresh now clients k u.1, get-retain_fresh-none now clients addr u.0)

module _ {Msg Pkt Udp Sock : Type 0} (wire : Wire Msg Pkt Udp Sock) where
  to_udp-clients :
      (d : ConnData Udp Sock) (addr : ℕ) (r : Result Pkt)
      → (to_udp wire d addr r).0.udp_clients ≡ d.udp_clients
  unfolding to_udp
  to_udp-clients d addr (ok pkt) = refl
  to_udp-clients d addr (err e) = refl

  to_tcp-clients :
      (d : ConnData Udp Sock) (addr : ℕ) (cli : TcpClient Sock) (msg : Msg)
      → (to_tcp wire d addr cli msg).0.udp_clients ≡ d.udp_clients
  unfolding to_tcp
  to_tcp-clients d addr cli msg = refl

  heard-unassociate :
      (d : ConnData Udp Sock) (addr k : ℕ) (cli : UdpClient)
      → HashMap.get addr d.udp_clients ≡ some cli
      → heard (unassociate wire d addr cli).udp_clients k ≡ heard d.udp_clients k
  unfolding unassociate
  heard-unassociate d addr k cli e =
      ground (arith, get-insert addr k (record cli { tcp_addr = none }) d.udp_clients)

  heard-send_oversized :
      (d : ConnData Udp Sock) (addr k : ℕ) (msg : Msg) (o : Option UdpClient)
      → HashMap.get addr d.udp_clients ≡ o
      → heard (send_oversized wire d addr msg o).0.udp_clients k ≡ heard d.udp_clients k
  unfolding send_oversized
  heard-send_oversized d addr k msg none e =
      ap (λ c. heard c k) (to_udp-clients d addr (wire.encode wire.oversized_reply))
  heard-send_oversized d addr k msg (some cli) e = elim (Option-cases cli.tcp_addr) [
    | inl n ↦
        rw (n, send_oversized)
          (ap (λ c. heard c k) (to_udp-clients d addr (wire.encode wire.oversized_reply)))
    | inr (tcp, n) ↦ elim (Option-cases (HashMap.get tcp d.tcp_clients)) [
      | inl g ↦
          rw (n, g, send_oversized)
            (ap (λ c. heard c k)
                (to_udp-clients (unassociate wire d addr cli) addr
                  (wire.encode wire.oversized_reply))
              ∙ heard-unassociate d addr k cli e)
      | inr (tcp_cli, g) ↦
          rw (n, g, send_oversized) (ap (λ c. heard c k) (to_tcp-clients d tcp tcp_cli msg))
    ]
  ]

  pub heard-send_raw :
      (d : ConnData Udp Sock) (addr k : ℕ) (msg : Msg)
      → heard (send_raw wire d addr msg).0.udp_clients k ≡ heard d.udp_clients k
  unfolding send_raw send_encoded
  heard-send_raw d addr k msg = encoded (wire.encode msg)
    where
      encoded :
          (r : Result Pkt)
          → heard (send_encoded wire d addr msg r).0.udp_clients k ≡ heard d.udp_clients k
      encoded (err e) = refl
      encoded (ok pkt) = elim (Bool-cases (ltb udp_max_packet_size (wire.size pkt))) [
        | inl n ↦
            rw (n, send_encoded)
              (heard-send_oversized d addr k msg (HashMap.get addr d.udp_clients) refl)
        | inr n ↦ rw (n, send_encoded) (ap (λ c. heard c k) (to_udp-clients d addr (ok pkt)))
      ]

  pub send_tcp-clients :
      (d : ConnData Udp Sock) (addr : ℕ) (msg : Msg)
      → (send_tcp wire d addr msg).0.udp_clients ≡ d.udp_clients
  unfolding send_tcp
  send_tcp-clients d addr msg = elim (Option-cases (HashMap.get addr d.tcp_clients)) [
    | inl n ↦ rw (n, send_tcp) refl
    | inr (cli, n) ↦ rw (n, send_tcp) (to_tcp-clients d addr cli msg)
  ]
