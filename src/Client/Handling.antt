-- ===== src/Client/Handling.antt =====
-- The client's handlers of replies from the server and of messages from the user interface
-- (sqa-ui/src/connection.rs).
use sqa.Base.{Bool, true, false, String, str_append, [], ◌∷◌, ◌++◌, Result, ok, err, if◌then◌else◌}
use sqa.Codec.{Command, Reply}
use sqa.Client.{
  UdpHandle, PrivateConnectionState, ConnectionMessage, UiMessage, Link, C, then_try, tell,
  send_to_server, ping_timeout,
}

module _ {Pending Tcp Udp Pkt T : Type 0} (link : Link Pending Tcp Udp Pkt T) where
  unfoldable pub handle_external_nonstateful : C link → Reply → C link
  unfolding tell
  handle_external_nonstateful c (Reply.action_created res) =
      tell link c (UiMessage.action_reply (Reply.action_created res))
  handle_external_nonstateful c (Reply.action_info_retrieved uuid res) =
      tell link c (UiMessage.action_reply (Reply.action_info_retrieved uuid res))
  handle_external_nonstateful c (Reply.action_params_updated uuid res) =
      tell link c (UiMessage.action_reply (Reply.action_params_updated uuid res))
  handle_external_nonstateful c (Reply.action_deleted uuid deleted) =
      tell link c (UiMessage.action_reply (Reply.action_deleted uuid deleted))
  handle_external_nonstateful c (Reply.action_loaded uuid res) =
      tell link c (UiMessage.action_reply (Reply.action_loaded uuid res))
  handle_external_nonstateful c (Reply.action_executed uuid res) =
      tell link c (UiMessage.action_reply (Reply.action_executed uuid res))
  handle_external_nonstateful c (Reply.update_action_info uuid info) =
      tell link c (UiMessage.action_reply (Reply.update_action_info uuid info))
  handle_external_nonstateful c (Reply.update_action_deleted uuid) =
      tell link c (UiMessage.action_reply (Reply.update_action_deleted uuid))
  handle_external_nonstateful c (Reply.update_order order) =
      tell link c (UiMessage.action_reply (Reply.update_order order))
  handle_external_nonstateful c (Reply.action_reordered uuid res) =
      tell link c (UiMessage.action_reply (Reply.action_reordered uuid res))
  handle_external_nonstateful c (Reply.reply_action_list list order) =
      tell link c (UiMessage.action_reply (Reply.reply_action_list list order))
  handle_external_nonstateful c (Reply.waveform_generated uuid res) =
      tell link c (UiMessage.action_reply (Reply.waveform_generated uuid res))
  handle_external_nonstateful c (Reply.update_mixer_conf conf) =
      tell link c (UiMessage.updated_mixer_conf conf)
  handle_external_nonstateful c (Reply.reply_undo_state ctx) =
      tell link c (UiMessage.undo_state ctx)
  handle_external_nonstateful c (Reply.savefile_made res) =
      tell link c (UiMessage.save_reply (Reply.savefile_made res))
  handle_external_nonstateful c (Reply.savefile_loaded res) =
      tell link c (UiMessage.save_reply (Reply.savefile_loaded res))
  handle_external_nonstateful c msg = c

  -- The sockets that the state has by now are taken along.
  abbrev pub now_subscribing :
      String → PrivateConnectionState Pending Tcp Udp → PrivateConnectionState Pending Tcp Udp
  now_subscribing ver (PrivateConnectionState.version_query_sent udp tcp) =
      PrivateConnectionState.subscription_query_sent udp tcp ver
  now_subscribing ver st = PrivateConnectionState.disconnected

  -- The server has told its version.
  unfoldable pub subscribe : C link → Tcp → String → C link × Result Bool
  unfolding send_to_server
  subscribe c tcp ver =
      then_try link (c, link.local_addr tcp)
        (λ c1 addr.
          then_try link (send_to_server link c1 (Command.subscribe_and_associate addr))
            (λ c2 u. (record c2 { state = now_subscribing ver c2.state }, ok true)))

  -- The first commands of a connection.
  unfoldable pub greet : C link → C link × Result Bool
  unfolding ping_timeout send_to_server tell
  greet c = then_try link (ping_timeout link c) (λ c1 u.
      then_try link (send_to_server link c1 Command.get_mixer_conf) (λ c2 u.
        then_try link (send_to_server link c2 Command.get_undo_state) (λ c3 u.
          then_try link (send_to_server link c3 Command.action_list) (λ c4 u. (
            tell link (tell link c4 UiMessage.save_newly_connected) UiMessage.newly_connected,
            ok true,
          )))))

  -- The server has answered the association.
  unfoldable pub associated :
      C link → UdpHandle Udp → Tcp → String → Result (Unit {0}) → C link × Result Bool
  unfolding greet tell
  associated c udp tcp ver (err e) = (
    record (tell link c (UiMessage.error (str_append "Associating with server failed: " e))) {
      state = PrivateConnectionState.disconnected;
    },
    ok true,
  )
  associated c udp tcp ver (ok u) =
      greet (record c { state = PrivateConnectionState.connected udp tcp c.now c.now ver })

  -- A reply by the state; the result tells whether the state has changed.
  unfoldable pub handle_in :
      C link → PrivateConnectionState Pending Tcp Udp → Reply → C link × Result Bool
  unfolding subscribe associated handle_external_nonstateful
  handle_in c (PrivateConnectionState.version_query_sent udp tcp) (Reply.server_version ver) =
      subscribe c tcp ver
  handle_in c (PrivateConnectionState.subscription_query_sent udp tcp ver) (Reply.associated res) =
      associated c udp tcp ver res
  handle_in c (PrivateConnectionState.connected udp tcp last_ping last_pong ver) Reply.pong =
      (record c { state = PrivateConnectionState.connected udp tcp last_ping c.now ver }, ok true)
  handle_in c (PrivateConnectionState.connected udp tcp last_ping last_pong ver) msg =
      (handle_external_nonstateful c msg, ok false)
  handle_in c st msg = (c, ok false)

  unfoldable pub handle_external : C link → Reply → C link × Result Bool
  unfolding handle_in
  handle_external c msg = handle_in c c.state msg

  abbrev pub is_connected : PrivateConnectionState Pending Tcp Udp → Bool
  is_connected (PrivateConnectionState.connected udp tcp last_ping last_pong ver) = true
  is_connected st = false

  unfoldable pub handle_internal : C link → ConnectionMessage → C link × Result Bool
  unfolding send_to_server tell
  handle_internal c ConnectionMessage.disconnect =
      (record c { state = PrivateConnectionState.disconnected }, ok true)
  handle_internal c (ConnectionMessage.connect addr) =
      (record c { state = PrivateConnectionState.tcp_connecting (link.connect addr) addr }, ok true)
  handle_internal c (ConnectionMessage.send cmd) =
      if is_connected c.state
      then then_try link (send_to_server link c cmd) (λ c1 u. (c1, ok false))
      else (tell link c (UiMessage.error "Not connected, but tried to send messages."), ok false)

  unfoldable pub add_msg : C link → ConnectionMessage → C link
  add_msg c msg = record c { messages = c.messages ++ msg ∷ [] }
