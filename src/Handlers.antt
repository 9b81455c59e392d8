-- ===== src/Handlers.antt =====
-- The connections of the server (sqa-backend/src/handlers.rs): the clients, how a message is sent to
-- one of them, and to all.
pub mod Broadcast
mod Tests
use sqa.Base.{
  ℕ, ◌+◌, ◌-◌, Bool, true, false, ◌&&◌, not, Option, none, some, List, [], ◌∷◌, length, Outcome,
  done, panic, ◌>>=◌, Result, ok, err, leb, ltb, ◌==◌, if◌then◌else◌, is_some, String, str_append,
}
use sqa.Base.HashMap
use sqa.Base.HashMap.{HashMap}

abbrev pub udp_max_packet_size : ℕ
udp_max_packet_size = 508

-- An address is known by a number, a time is in nanoseconds.
pub record UdpClient : Type 0 where
  pub subscribed_at : ℕ
  pub tcp_addr : Option ℕ

pub record TcpClient (Sock : Type 0) : Type 0 where
  pub sock : Sock
  pub subscribed : Bool

pub data ReplyDataType : Type 0 where
  tcp_request : ReplyDataType
  udp_request : ReplyDataType

pub record ReplyData : Type 0 where
  pub ty : ReplyDataType
  pub addr : ℕ

pub record ConnData (Udp Sock : Type 0) : Type 0 where
  pub framed : Udp
  pub udp_clients : HashMap UdpClient
  pub tcp_clients : HashMap (TcpClient Sock)

-- The crates for OSC and for the sockets: messages of type `Msg` are encoded to packets of type
-- `Pkt`, and a socket takes a message or refuses it.
pub record Wire (Msg Pkt Udp Sock : Type 0) : Type 0 where
  pub encode : Msg → Result Pkt
  pub size : Pkt → ℕ
  pub send_udp : Udp → ℕ → Pkt → Udp × Result (Unit {0})
  pub send_tcp : Sock → Msg → Sock × Result (Unit {0})
  pub oversized_reply : Msg
  pub deser_failed : String → Msg
  -- The print of an address.
  pub show : ℕ → String

-- What a call on the connections returns.
abbrev pub Sent : Type 0 → Type 0 → Type 0
Sent Udp Sock = ConnData Udp Sock × Result (Unit {0})

module _ {Msg Pkt Udp Sock : Type 0} (wire : Wire Msg Pkt Udp Sock) where
  -- The socket of a client takes its message.
  unfoldable pub to_tcp : ConnData Udp Sock → ℕ → TcpClient Sock → Msg → Sent Udp Sock
  unfolding HashMap.insert
  to_tcp d addr cli msg =
      let (sock, r) = wire.send_tcp cli.sock msg in
      (record d { tcp_clients = HashMap.insert addr (record cli { sock = sock }) d.tcp_clients }, r)

  unfoldable pub to_udp : ConnData Udp Sock → ℕ → Result Pkt → Sent Udp Sock
  to_udp d addr (err e) = (d, err e)
  to_udp d addr (ok pkt) =
      let (framed, r) = wire.send_udp d.framed addr pkt in (record d { framed = framed }, r)

  -- An oversized packet, for a client whose TCP client is gone: the association goes as well.
  unfoldable pub unassociate : ConnData Udp Sock → ℕ → UdpClient → ConnData Udp Sock
  unfolding HashMap.insert
  unassociate d addr cli = record d {
    udp_clients = HashMap.insert addr (record cli { tcp_addr = none }) d.udp_clients;
  }

  unfoldable pub send_oversized : ConnData Udp Sock → ℕ → Msg → Option UdpClient → Sent Udp Sock
  unfolding to_udp to_tcp unassociate HashMap.get
  send_oversized d addr msg none = to_udp d addr (wire.encode wire.oversized_reply)
  send_oversized d addr msg (some cli) = elim cli.tcp_addr [
    | none ↦ to_udp d addr (wire.encode wire.oversized_reply)
    | some tcp ↦ elim (HashMap.get tcp d.tcp_clients) [
      | some tcp_cli ↦ to_tcp d tcp tcp_cli msg
      | none ↦ to_udp (unassociate d addr cli) addr (wire.encode wire.oversized_reply)
    ]
  ]

  unfoldable pub send_encoded : ConnData Udp Sock → ℕ → Msg → Result Pkt → Sent Udp Sock
  unfolding send_oversized
  send_encoded d addr msg (err e) = (d, err e)
  send_encoded d addr msg (ok pkt) =
      if ltb udp_max_packet_size (wire.size pkt)
      then send_oversized d addr msg (HashMap.get addr d.udp_clients)
      else to_udp d addr (ok pkt)

  unfoldable pub send_raw : ConnData Udp Sock → ℕ → Msg → Sent Udp Sock
  unfolding send_encoded
  send_raw d addr msg = send_encoded d addr msg (wire.encode msg)

  unfoldable pub send_tcp : ConnData Udp Sock → ℕ → Msg → Sent Udp Sock
  unfolding to_tcp HashMap.get
  send_tcp d addr msg = elim (HashMap.get addr d.tcp_clients) [
    | some cli ↦ to_tcp d addr cli msg
    | none ↦ (d, err (str_append "No TCP connection with source address " (wire.show addr)))
  ]

  unfoldable pub respond : ConnData Udp Sock → ReplyData → Msg → Sent Udp Sock
  unfolding send_raw send_tcp
  respond d rd msg = elim rd.ty [
    | ReplyDataType.udp_request ↦ send_raw d rd.addr msg
    | ReplyDataType.tcp_request ↦ send_tcp d rd.addr msg
  ]

module _ {Udp Sock : Type 0} where
  -- A new subscription has no TCP address; a TCP request without a client is a panic.
  unfoldable pub subscribe : ℕ → ConnData Udp Sock → ReplyData → Outcome (ConnData Udp Sock)
  unfolding HashMap.get HashMap.insert HashMap.remove
  subscribe now d rd = elim rd.ty [
    | ReplyDataType.udp_request ↦ done (record d {
      udp_clients =
          HashMap.insert rd.addr (record { subscribed_at = now; tcp_addr = none })
            (HashMap.remove rd.addr d.udp_clients);
    })
    | ReplyDataType.tcp_request ↦ elim (HashMap.get rd.addr d.tcp_clients) [
      | none ↦ panic
      | some cli ↦ done (record d {
        tcp_clients = HashMap.insert rd.addr (record cli { subscribed = true }) d.tcp_clients;
      })
    ]
  ]

  unfoldable pub associate_udp :
      ConnData Udp Sock → ℕ → ℕ → Option UdpClient → ConnData Udp Sock × Result (Unit {0})
  unfolding HashMap.get HashMap.insert
  associate_udp d from addr none = (d, err "Can't associate a non-subscribed client.")
  associate_udp d from addr (some cli) =
      if is_some (HashMap.get addr d.tcp_clients)
      then (
        record d {
          udp_clients = HashMap.insert from (record cli { tcp_addr = some addr }) d.udp_clients;
        },
        ok tt,
      )
      else (d, err "Address to associate isn't an active TCP connection source address.")

  unfoldable pub associate :
      ConnData Udp Sock → ReplyData → ℕ → ConnData Udp Sock × Result (Unit {0})
  unfolding associate_udp
  associate d rd addr = elim rd.ty [
    | ReplyDataType.udp_request ↦ associate_udp d rd.addr addr (HashMap.get rd.addr d.udp_clients)
    | ReplyDataType.tcp_request ↦ (d, err "Can't associate on a TCP connection.")
  ]
