-- ===== src/Client/Phases.antt =====
-- The phases of the client's connection, and what keeps them.
use sqa.Base.{
  ℕ, ◌≡◌, refl, ap, ◌∙◌, Bool, true, false, String, Option, none, some, Result, ok, err, ltb,
  if◌then◌else◌, Bool-cases, inl, inr, arith,
}
use sqa.Codec.{Command}
use sqa.Client.{
  UdpHandle, PrivateConnectionState, Link, C, with_sockets, get_sockets, then_try, send_packet,
  send_encoded, send_over, send_to_server, pinged, notify_state_change, tell, ping_in, ping_if,
  UiMessage, update_last_ping, with_timer, ping_with, ping_timeout,
}
use sqa.Client.Handling.{greet}
use sqa.Handlers.{udp_max_packet_size}

-- The states without what they hold.
pub data Phase : Type 0 where
  disconnected tcp_connecting version_query_sent subscription_query_sent connected : Phase

abbrev pub phase : {P T U : Type 0} → PrivateConnectionState P T U → Phase
phase PrivateConnectionState.disconnected = Phase.disconnected
phase (PrivateConnectionState.tcp_connecting p addr) = Phase.tcp_connecting
phase (PrivateConnectionState.version_query_sent udp tcp) = Phase.version_query_sent
phase (PrivateConnectionState.subscription_query_sent udp tcp ver) = Phase.subscription_query_sent
phase (PrivateConnectionState.connected udp tcp last_ping last_pong ver) = Phase.connected

phase-with_sockets :
    {P T U : Type 0} (st : PrivateConnectionState P T U) (tcp : T) (framed : U)
    → phase (with_sockets st tcp framed) ≡ phase st
phase-with_sockets PrivateConnectionState.disconnected tcp framed = refl
phase-with_sockets (PrivateConnectionState.tcp_connecting p addr) tcp framed = refl
phase-with_sockets (PrivateConnectionState.version_query_sent u t) tcp framed = refl
phase-with_sockets (PrivateConnectionState.subscription_query_sent u t ver) tcp framed = refl
phase-with_sockets (PrivateConnectionState.connected u t i o ver) tcp framed = refl

module _ {Pending Tcp Udp Pkt T : Type 0} (link : Link Pending Tcp Udp Pkt T) where
  send_packet-phase :
      (c : C link) (cmd : Command) (tcp : Tcp) (udp : UdpHandle Udp) (pkt : Pkt)
      → phase (send_packet link c cmd tcp udp pkt).0.state ≡ phase c.state
  unfolding send_packet
  send_packet-phase c cmd tcp udp pkt =
      elim (Bool-cases (ltb udp_max_packet_size (link.size pkt))) [
        | inl e ↦
            rw (e, if◌then◌else◌) (phase-with_sockets c.state (link.send_tcp tcp cmd).0 udp.framed)
        | inr e ↦
            rw (e, if◌then◌else◌) (phase-with_sockets c.state tcp (link.send_udp udp.framed pkt).0)
      ]

  send_encoded-phase :
      (c : C link) (cmd : Command) (tcp : Tcp) (udp : UdpHandle Udp) (r : Result Pkt)
      → phase (send_encoded link c cmd tcp udp r).0.state ≡ phase c.state
  send_encoded-phase c cmd tcp udp (err e) = refl
  send_encoded-phase c cmd tcp udp (ok pkt) = send_packet-phase c cmd tcp udp pkt

  send_over-phase :
      (c : C link) (cmd : Command) (o : Option (Tcp × UdpHandle Udp))
      → phase (send_over link c cmd o).0.state ≡ phase c.state
  send_over-phase c cmd none = refl
  send_over-phase c cmd (some (tcp, udp)) = send_encoded-phase c cmd tcp udp (link.encode cmd)

  -- Sending keeps the phase.
  pub send_to_server-phase :
      (c : C link) (cmd : Command) → phase (send_to_server link c cmd).0.state ≡ phase c.state
  unfolding send_to_server
  send_to_server-phase c cmd = send_over-phase c cmd (get_sockets c.state)

  -- Commands that are sent one after another keep it.
  sent-phase :
      {A : Type 0} (c : C link) (cmd : Command) (next : C link → Unit {0} → C link × Result A)
      (p : Phase)
      → phase c.state ≡ p
      → ((c' : C link) → phase c'.state ≡ p → phase (next c' tt).0.state ≡ p)
      → phase (then_try link (send_to_server link c cmd) next).0.state ≡ p
  sent-phase c cmd next p e h = tried (send_to_server link c cmd) (send_to_server-phase c cmd ∙ e)
    where
      tried :
          (r : C link × Result (Unit {0}))
          → phase r.0.state ≡ p
          → phase (then_try link r next).0.state ≡ p
      tried (c', err x) e' = e'
      tried (c', ok u) e' = h c' e'

  pinged-phase :
      (c : C link) (st : PrivateConnectionState Pending Tcp Udp)
      → phase c.state ≡ phase st
      → phase (pinged link c st).state ≡ phase st
  pinged-phase c PrivateConnectionState.disconnected e = e
  pinged-phase c (PrivateConnectionState.tcp_connecting p addr) e = e
  pinged-phase c (PrivateConnectionState.version_query_sent u t) e = e
  pinged-phase c (PrivateConnectionState.subscription_query_sent u t ver) e = e
  pinged-phase c (PrivateConnectionState.connected u t i o ver) e = refl

  with_timer-phase :
      (c : C link) (r : Result T) → phase (with_timer link c r).0.state ≡ phase c.state
  with_timer-phase c (err e) = refl
  with_timer-phase c (ok t) = refl

  -- A ping that is sent keeps the phase.
  ping_if-phase :
      (c : C link) (p : Phase) → phase c.state ≡ p → phase (ping_if link c false).0.state ≡ p
  unfolding ping_if notify_state_change tell update_last_ping
  ping_if-phase c p e =
      sent-phase c Command.ping
        (λ c1 u.
          with_timer link (notify_state_change link (update_last_ping link c1))
            (link.new_timer c.now))
        p e
        (λ c1 e1.
          with_timer-phase (notify_state_change link (update_last_ping link c1))
            (link.new_timer c.now)
          ∙ pinged-phase c1 c1.state refl
          ∙ e1)

  -- A new connection, whose ping and pong are of one time, is pinged.
  pub fresh-phase :
      (c : C link) (udp : UdpHandle Udp) (tcp : Tcp) (ver : String) (t : ℕ)
      → c.state ≡ PrivateConnectionState.connected udp tcp t t ver
      → phase (ping_timeout link c).0.state ≡ Phase.connected
  unfolding ping_timeout ping_with
  fresh-phase c udp tcp ver t e =
      ap (λ st. phase (ping_in link c st).0.state) e
      ∙ ap (λ b. phase (ping_if link c b).0.state) same
      ∙ ping_if-phase c Phase.connected (ap phase e)
    where
      same : ltb t t ≡ false
      same = ground arith

  -- The commands after it keep the connection.
  pub greet-phase :
      (c : C link)
      → phase (ping_timeout link c).0.state ≡ Phase.connected
      → phase (greet link c).0.state ≡ Phase.connected
  unfolding greet tell
  greet-phase c e = tried (ping_timeout link c) e
    where
      last : C link → Unit {0} → C link × Result Bool
      last = λ c4 u. (
        tell link (tell link c4 UiMessage.save_newly_connected) UiMessage.newly_connected,
        ok true,
      )

      third : C link → Unit {0} → C link × Result Bool
      third = λ c3 u. then_try link (send_to_server link c3 Command.action_list) last

      second : C link → Unit {0} → C link × Result Bool
      second = λ c2 u. then_try link (send_to_server link c2 Command.get_undo_state) third

      tried :
          (r : C link × Result (Unit {0}))
          → phase r.0.state ≡ Phase.connected
          → phase
              (then_try link r (λ c1 u.
                then_try link (send_to_server link c1 Command.get_mixer_conf) second)).0.state
            ≡ Phase.connected
      tried (c1, err x) e1 = e1
      tried (c1, ok u) e1 = sent-phase c1 Command.get_mixer_conf second Phase.connected e1 (λ c2 e2.
          sent-phase c2 Command.get_undo_state third Phase.connected e2
            (λ c3 e3. sent-phase c3 Command.action_list last Phase.connected e3 (λ c4 e4. e4)))
