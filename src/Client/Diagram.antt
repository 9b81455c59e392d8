-- ===== src/Client/Diagram.antt =====
-- The diagram of the client's connection.
use sqa.Base.{ℕ, ◌≡◌, refl, sym, ap, subst, ◌∙◌, Bool, true, String, Result, ok, err}
use sqa.Codec.{Command, Reply}
use sqa.Client.{UdpHandle, PrivateConnectionState, Link, C, then_try, send_to_server, tell}
use sqa.Client.Handling.{
  handle_external_nonstateful, subscribe, associated, handle_in, handle_external, now_subscribing,
}
use sqa.Client.Phases.{Phase, phase, send_to_server-phase, fresh-phase, greet-phase}

-- What a reply may lead to.
pub data Step : Phase → Reply → Phase → Type 0 where
  stays : {p : Phase} (msg : Reply) → Step p msg p
  subscribes :
      (ver : String)
      → Step Phase.version_query_sent (Reply.server_version ver) Phase.subscription_query_sent
  connects : Step Phase.subscription_query_sent (Reply.associated (ok tt)) Phase.connected
  refused :
      (e : String)
      → Step Phase.subscription_query_sent (Reply.associated (err e)) Phase.disconnected

module _ {Pending Tcp Udp Pkt T : Type 0} (link : Link Pending Tcp Udp Pkt T) where
  nonstateful-keeps :
      (c : C link) (msg : Reply) → (handle_external_nonstateful link c msg).state ≡ c.state
  unfolding handle_external_nonstateful tell
  nonstateful-keeps c (Reply.action_created res) = refl
  nonstateful-keeps c (Reply.action_info_retrieved uuid res) = refl
  nonstateful-keeps c (Reply.action_params_updated uuid res) = refl
  nonstateful-keeps c (Reply.action_deleted uuid deleted) = refl
  nonstateful-keeps c (Reply.action_loaded uuid res) = refl
  nonstateful-keeps c (Reply.action_executed uuid res) = refl
  nonstateful-keeps c (Reply.update_action_info uuid info) = refl
  nonstateful-keeps c (Reply.update_action_deleted uuid) = refl
  nonstateful-keeps c (Reply.update_order order) = refl
  nonstateful-keeps c (Reply.action_reordered uuid res) = refl
  nonstateful-keeps c (Reply.reply_action_list list order) = refl
  nonstateful-keeps c (Reply.waveform_generated uuid res) = refl
  nonstateful-keeps c (Reply.update_mixer_conf conf) = refl
  nonstateful-keeps c (Reply.reply_undo_state ctx) = refl
  nonstateful-keeps c (Reply.savefile_made res) = refl
  nonstateful-keeps c (Reply.savefile_loaded res) = refl
  nonstateful-keeps c msg = refl

  now_subscribing-phase :
      (ver : String) (st : PrivateConnectionState Pending Tcp Udp)
      → phase st ≡ Phase.version_query_sent
      → phase (now_subscribing link ver st) ≡ Phase.subscription_query_sent
  now_subscribing-phase ver PrivateConnectionState.disconnected e = cc
  now_subscribing-phase ver (PrivateConnectionState.tcp_connecting p addr) e = cc
  now_subscribing-phase ver (PrivateConnectionState.version_query_sent u t) e = refl
  now_subscribing-phase ver (PrivateConnectionState.subscription_query_sent u t v) e = cc
  now_subscribing-phase ver (PrivateConnectionState.connected u t i o v) e = cc

  subscribe-Step :
      (c : C link) (tcp : Tcp) (ver : String)
      → phase c.state ≡ Phase.version_query_sent
      → Step Phase.version_query_sent
          (Reply.server_version ver)
          (phase (subscribe link c tcp ver).0.state)
  unfolding subscribe
  subscribe-Step c tcp ver e = from_addr (link.local_addr tcp)
    where
      Ends : Phase → Type 0
      Ends p = Step Phase.version_query_sent (Reply.server_version ver) p

      next : C link → Unit {0} → C link × Result Bool
      next = λ c2 u. (record c2 { state = now_subscribing link ver c2.state }, ok true)

      tried :
          (r : C link × Result (Unit {0}))
          → phase r.0.state ≡ Phase.version_query_sent
          → Ends (phase (then_try link r next).0.state)
      tried (c2, err x) e2 = subst Ends (sym e2) (Step.stays (Reply.server_version ver))
      tried (c2, ok u) e2 =
          subst Ends (sym (now_subscribing-phase ver c2.state e2)) (Step.subscribes ver)

      from_addr :
          (a : Result ℕ)
          → Ends (
              phase
                (then_try link
                  (c, a)
                  (λ c1 addr.
                    then_try link
                      (send_to_server link c1 (Command.subscribe_and_associate addr))
                      next)).0.state)
      from_addr (err x) = subst Ends (sym e) (Step.stays (Reply.server_version ver))
      from_addr (ok addr) =
          tried (send_to_server link c (Command.subscribe_and_associate addr))
            (send_to_server-phase link c (Command.subscribe_and_associate addr) ∙ e)

  associated-Step :
      (c : C link) (udp : UdpHandle Udp) (tcp : Tcp) (ver : String) (res : Result (Unit {0}))
      → Step Phase.subscription_query_sent
          (Reply.associated res)
          (phase (associated link c udp tcp ver res).0.state)
  unfolding associated
  associated-Step c udp tcp ver (err x) = Step.refused x
  associated-Step c udp tcp ver (ok u) =
      let c1 : C link = record c {
        state = PrivateConnectionState.connected udp tcp c.now c.now ver;
      } in
      subst (λ p. Step Phase.subscription_query_sent (Reply.associated (ok tt)) p)
        (sym (greet-phase link c1 (fresh-phase link c1 udp tcp ver c.now refl))) Step.connects

  in-Step :
      (c : C link) (st : PrivateConnectionState Pending Tcp Udp) (msg : Reply)
      → c.state ≡ st
      → Step (phase st) msg (phase (handle_in link c st msg).0.state)
  unfolding handle_in
  in-Step c (PrivateConnectionState.version_query_sent udp tcp) (Reply.server_version ver) e =
      subscribe-Step c tcp ver (ap phase e)
  in-Step c (PrivateConnectionState.subscription_query_sent udp tcp ver) (Reply.associated res) e =
      associated-Step c udp tcp ver res
  in-Step c (PrivateConnectionState.connected udp tcp i o ver) Reply.pong e = Step.stays Reply.pong
  in-Step c (PrivateConnectionState.connected udp tcp i o ver) msg e =
      subst (λ p. Step Phase.connected msg p) (sym (ap phase (nonstateful-keeps c msg ∙ e)))
        (Step.stays msg)
  in-Step c st msg e = subst (λ s. Step (phase st) msg (phase s)) (sym e) (Step.stays msg)

  -- Whatever a server sends, the connection moves only along its diagram: a reply leaves the phase as
  -- it is, or it is the version, which leads from the version's query to the subscription's, or a
  -- granted association, which leads from there to the connection, or a refused one, which leads
  -- from there to the disconnected phase. So no reply connects a client that has not sent its
  -- subscription, and none disconnects one that is connected, whatever the sockets do.
  pub handle_external-Step :
      (c : C link) (msg : Reply)
      → Step (phase c.state) msg (phase (handle_external link c msg).0.state)
  unfolding handle_external
  handle_external-Step c msg = in-Step c c.state msg refl
