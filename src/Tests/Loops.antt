-- ===== src/Tests/Loops.antt =====
-- The loop of server/net_server.cpp at concrete inputs.
use networked_capture_the_fl.Prelude.{
  ℤ, pos, ℕ, ◌≡◌, refl, true, false, List, [], ◌∷◌, ◌++◌, replicate,
}
use networked_capture_the_fl.Server.Lobby.{no_lobby}
use networked_capture_the_fl.Server.NetServer.{NetServer}
use networked_capture_the_fl.Server.NetServer.Streams.{got, hung_up}
use networked_capture_the_fl.Server.NetServer.InStep.{IsInStep}
use networked_capture_the_fl.Server.NetServer.Rounds.{
  EventLoop, Ready, LoopTurn, run, Opening, start, not_started,
}
use networked_capture_the_fl.Server.NetServer.Running.{run-IsInStep}
use networked_capture_the_fl.Server.NetServer.Stopping.{run-stops}

abbrev fresh : NetServer
fresh = record {
  registry = [];
  lobby = no_lobby;
  inbound = [];
  outbound = [];
  datagrams = [];
  frames = [];
  closed = [];
  tcp_in = replicate 10 [];
  pre_join = [];
  udp_port = 0;
  udp_silence_ms = 3000;
  last_silence_check_ms = 0;
  udp_snapshots_sent = 0;
  udp_delta_snapshots_sent = 0;
  tcp_events_fanned_out = 0;
}

abbrev opening : Opening
opening = record {
  listen_fd = pos 3;
  binds = true;
  listens = true;
  listen_port = 5000;
  datagram_fd = pos 4;
  datagram_binds = true;
  datagram_port = 5001;
  wake_fd = pos 5;
  now = 10;
}

-- A result that says to read, and nothing more.
abbrev readable_fd : ℤ → Ready
readable_fd fd = record {
  result = record { fd = fd; readable = true; writable = false };
  now = 20;
  token = 99;
  reads = [];
  sends = [];
  packets = [];
  accepts = [];
  events = [];
  stops = false;
}

-- A frame that asks to join, with a name of one letter.
abbrev join_bytes : List ℕ
join_bytes = 0 ∷ 16 ∷ 1 ∷ 97 ∷ replicate 15 0

abbrev connects : Ready
connects = record (readable_fd (pos 3)) { accepts = pos 7 ∷ pos 8 ∷ [] }

abbrev joins : Ready
joins = record (readable_fd (pos 7)) { reads = got join_bytes ∷ [] }

abbrev starts : Ready
starts = record (readable_fd (pos 8)) { reads = got (join_bytes ++ 0 ∷ 1 ∷ 5 ∷ 0 ∷ []) ∷ [] }

abbrev hangs_up : Ready
hangs_up = record (readable_fd (pos 7)) { reads = hung_up ∷ [] }

abbrev stopping : Ready
stopping = record (readable_fd (pos 5)) { stops = true }

abbrev turn : List Ready → LoopTurn
turn results = record { results = results; now = 200; check_now = 200 }

-- Two clients connect and join in one turn; the first of them is gone in the next one.
abbrev turns : List LoopTurn
turns = turn (connects ∷ joins ∷ starts ∷ []) ∷ turn (hangs_up ∷ []) ∷ []

run-IsInStep_example :
    IsInStep (run (λ ids. ids) turns (start opening (not_started fresh)).1).server
run-IsInStep_example =
    run-IsInStep (λ ids. ids) opening turns fresh refl refl
      ((refl, (refl, (refl, tt))), ((refl, tt), tt))

abbrev ran : EventLoop
ran = run (λ ids. ids) turns (start opening (not_started fresh)).1

run-stops_example :
    run
      (λ ids. ids)
      (turn (connects ∷ []) ∷ turn (joins ∷ stopping ∷ starts ∷ []) ∷ turns)
      (start opening (not_started fresh)).1
    ≡ run
        (λ ids. ids)
        (turn (connects ∷ []) ∷ turn (joins ∷ stopping ∷ []) ∷ [])
        (start opening (not_started fresh)).1
run-stops_example =
    run-stops (λ ids. ids) stopping refl (turn (connects ∷ []) ∷ []) turns (joins ∷ [])
      (starts ∷ []) (turn []) (start opening (not_started fresh)).1
