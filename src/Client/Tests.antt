-- ===== src/Client/Tests.antt =====
-- The theorem on the client's connection with sockets that count what they take.
use sqa.Base.{ℕ, suc, none, [], ok}
use sqa.Codec.{Reply}
use sqa.Client.{PrivateConnectionState, Client, Link}
use sqa.Client.Handling.{handle_external}
use sqa.Client.Phases.{phase}
use sqa.Client.Diagram.{Step, handle_external-Step}

abbrev link : Link ℕ ℕ ℕ ℕ ℕ
link = record {
  encode = λ cmd. ok 100;
  size = λ pkt. pkt;
  send_tcp = λ n cmd. (suc n, ok tt);
  send_udp = λ n pkt. (suc n, ok tt);
  local_addr = λ n. ok 1;
  connect = λ addr. addr;
  new_timer = λ now. ok now;
}

-- The subscription was sent, and its reply is awaited.
abbrev waiting : Client ℕ ℕ ℕ ℕ
waiting = record {
  state =
      PrivateConnectionState.subscription_query_sent (record { framed = 0; addr = 9 }) 0 "0.1.0";
  messages = [];
  timeout = none;
  now = 500;
  told = [];
}

handle_external-Step_example :
    Step
      (phase waiting.state)
      (Reply.associated (ok tt))
      (phase (handle_external link waiting (Reply.associated (ok tt))).0.state)
handle_external-Step_example = handle_external-Step link waiting (Reply.associated (ok tt))
