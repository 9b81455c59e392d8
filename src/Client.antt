-- ===== src/Client.antt =====
-- The client's connection to the server (sqa-ui/src/connection.rs): its state machine, and the
-- handlers of messages from the user interface, of replies from the server and of the timer.
pub mod Handling
pub mod Phases
pub mod Diagram
mod Tests
use sqa.Base.{
  ℕ, Bool, true, false, String, str_append, Option, none, some, List, [], ◌∷◌, ◌++◌, Result, ok,
  err, ltb, if◌then◌else◌,
}
use sqa.Codec.{Command, Reply, UndoState}
use sqa.Mixer.{MixerConf}
use sqa.Handlers.{udp_max_packet_size}

-- What the user interface sees.
pub data ConnectionState : Type 0 where
  disconnected : ConnectionState
  connecting : (addr : ℕ) (status : String) → ConnectionState
  connected : (addr : ℕ) (ver : String) (last_ping : ℕ) (last_pong : ℕ) → ConnectionState

pub record UdpHandle (Udp : Type 0) : Type 0 where
  pub framed : Udp
  pub addr : ℕ

-- The state with its sockets, and with a TCP connection that is being made.
pub data PrivateConnectionState (Pending Tcp Udp : Type 0) : Type 0 where
  disconnected : PrivateConnectionState Pending Tcp Udp
  tcp_connecting : Pending → ℕ → PrivateConnectionState Pending Tcp Udp
  version_query_sent : UdpHandle Udp → Tcp → PrivateConnectionState Pending Tcp Udp
  subscription_query_sent : UdpHandle Udp → Tcp → String → PrivateConnectionState Pending Tcp Udp
  connected : UdpHandle Udp → Tcp → ℕ → ℕ → String → PrivateConnectionState Pending Tcp Udp

pub data ConnectionMessage : Type 0 where
  disconnect : ConnectionMessage
  connect : ℕ → ConnectionMessage
  send : Command → ConnectionMessage

-- What the connection tells the user interface.
pub data UiMessage : Type 0 where
  conn_state : ConnectionState → UiMessage
  newly_connected newly_disconnected save_newly_connected : UiMessage
  undo_state : UndoState → UiMessage
  action_reply save_reply : Reply → UiMessage
  updated_mixer_conf : MixerConf → UiMessage
  error : String → UiMessage

-- The sockets, the encoding of commands, and timers of type `T`.
pub record Link (Pending Tcp Udp Pkt T : Type 0) : Type 0 where
  pub encode : Command → Result Pkt
  pub size : Pkt → ℕ
  pub send_tcp : Tcp → Command → Tcp × Result (Unit {0})
  pub send_udp : Udp → Pkt → Udp × Result (Unit {0})
  pub local_addr : Tcp → Result ℕ
  pub connect : ℕ → Pending
  -- A timer of ten seconds, which is polled once.
  pub new_timer : ℕ → Result T

-- The context, with the clock and what was told.
pub record Client (Pending Tcp Udp T : Type 0) : Type 0 where
  pub state : PrivateConnectionState Pending Tcp Udp
  pub messages : List ConnectionMessage
  pub timeout : Option T
  pub now : ℕ
  pub told : List UiMessage

module _ {Pending Tcp Udp : Type 0} where
  unfoldable pub make_public : PrivateConnectionState Pending Tcp Udp → ConnectionState
  make_public PrivateConnectionState.disconnected = ConnectionState.disconnected
  make_public (PrivateConnectionState.connected udp tcp last_ping last_pong ver) =
      ConnectionState.connected udp.addr ver last_ping last_pong
  make_public (PrivateConnectionState.tcp_connecting tcp addr) =
      ConnectionState.connecting addr "Establishing TCP connection"
  make_public (PrivateConnectionState.version_query_sent udp tcp) =
      ConnectionState.connecting udp.addr "Performing UDP handshake"
  make_public (PrivateConnectionState.subscription_query_sent udp tcp ver) =
      ConnectionState.connecting udp.addr "Subscribing over UDP"

  -- The state with other sockets.
  abbrev pub with_sockets :
      PrivateConnectionState Pending Tcp Udp → Tcp → Udp → PrivateConnectionState Pending Tcp Udp
  with_sockets (PrivateConnectionState.version_query_sent udp t) tcp framed =
      PrivateConnectionState.version_query_sent (record udp { framed = framed }) tcp
  with_sockets (PrivateConnectionState.subscription_query_sent udp t ver) tcp framed =
      PrivateConnectionState.subscription_query_sent (record udp { framed = framed }) tcp ver
  with_sockets (PrivateConnectionState.connected udp t last_ping last_pong ver) tcp framed =
      PrivateConnectionState.connected (record udp { framed = framed }) tcp last_ping last_pong ver
  with_sockets st tcp framed = st

  unfoldable pub get_sockets : PrivateConnectionState Pending Tcp Udp → Option (Tcp × UdpHandle Udp)
  get_sockets (PrivateConnectionState.version_query_sent udp tcp) = some (tcp, udp)
  get_sockets (PrivateConnectionState.subscription_query_sent udp tcp ver) = some (tcp, udp)
  get_sockets (PrivateConnectionState.connected udp tcp last_ping last_pong ver) = some (tcp, udp)
  get_sockets st = none

module _ {Pending Tcp Udp Pkt T : Type 0} (link : Link Pending Tcp Udp Pkt T) where
  abbrev pub C : Type 0
  C = Client Pending Tcp Udp T

  -- A call that may leave early by `?`.
  abbrev pub then_try : {A B : Type 0} → C × Result A → (C → A → C × Result B) → C × Result B
  then_try (c, err e) next = (c, err e)
  then_try (c, ok a) next = next c a

  unfoldable pub tell : C → UiMessage → C
  tell c msg = record c { told = c.told ++ msg ∷ [] }

  unfoldable pub notify_state_change : C → C
  unfolding tell make_public
  notify_state_change c = tell c (UiMessage.conn_state (make_public c.state))

  unfoldable pub send_packet : C → Command → Tcp → UdpHandle Udp → Pkt → C × Result (Unit {0})
  send_packet c cmd tcp udp pkt =
      if ltb udp_max_packet_size (link.size pkt)
      then (let (tcp', r) = link.send_tcp tcp cmd in
          (record c { state = with_sockets c.state tcp' udp.framed }, r))
      else (let (framed, r) = link.send_udp udp.framed pkt in
          (record c { state = with_sockets c.state tcp framed }, r))

  abbrev pub send_encoded : C → Command → Tcp → UdpHandle Udp → Result Pkt → C × Result (Unit {0})
  send_encoded c cmd tcp udp (err e) = (c, err e)
  send_encoded c cmd tcp udp (ok pkt) = send_packet c cmd tcp udp pkt

  abbrev pub send_over : C → Command → Option (Tcp × UdpHandle Udp) → C × Result (Unit {0})
  send_over c cmd none = (c, err "send() called when not connected")
  send_over c cmd (some (tcp, udp)) = send_encoded c cmd tcp udp (link.encode cmd)

  -- A packet that is too large for UDP goes over TCP.
  unfoldable pub send_to_server : C → Command → C × Result (Unit {0})
  unfolding send_packet get_sockets
  send_to_server c cmd = send_over c cmd (get_sockets c.state)

  abbrev pub pinged : C → PrivateConnectionState Pending Tcp Udp → C
  pinged c (PrivateConnectionState.connected udp tcp last_ping last_pong ver) = record c {
    state = PrivateConnectionState.connected udp tcp c.now last_pong ver;
  }
  pinged c st = c

  unfoldable pub update_last_ping : C → C
  update_last_ping c = pinged c c.state

  abbrev pub with_timer : C → Result T → C × Result (Unit {0})
  with_timer c (err e) = (c, err e)
  with_timer c (ok t) = (record c { timeout = some t }, ok tt)

  -- Whether the reply to the last ping is overdue.
  unfoldable pub ping_if : C → Bool → C × Result (Unit {0})
  unfolding tell notify_state_change send_to_server update_last_ping
  ping_if c true =
      with_timer
        (notify_state_change (
          tell (record c { state = PrivateConnectionState.disconnected })
            UiMessage.newly_disconnected))
        (link.new_timer c.now)
  ping_if c false =
      then_try (send_to_server c Command.ping)
        (λ c1 u. with_timer (notify_state_change (update_last_ping c1)) (link.new_timer c.now))

  -- What `ping_timeout` does while connected: no reply since the last ping ends the connection.
  unfoldable pub ping_with : C → ℕ → ℕ → C × Result (Unit {0})
  unfolding ping_if
  ping_with c last_ping last_pong = ping_if c (ltb last_pong last_ping)

  abbrev pub ping_in : C → PrivateConnectionState Pending Tcp Udp → C × Result (Unit {0})
  ping_in c (PrivateConnectionState.connected udp tcp last_ping last_pong ver) =
      ping_with c last_ping last_pong
  ping_in c st = (c, ok tt)

  unfoldable pub ping_timeout : C → C × Result (Unit {0})
  unfolding ping_with
  ping_timeout c = ping_in c c.state
