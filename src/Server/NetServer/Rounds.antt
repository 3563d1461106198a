-- ===== src/Server/NetServer/Rounds.antt =====
-- The loop of server/net_server.cpp, from `start` to the destructor. What the system returns for a
-- call is a parameter, in order, and so is what the simulation pushes in between. A descriptor that
-- is closed is taken out of the poller as well; the other calls of the poller are `watches`.
use networked_capture_the_fl.Prelude.{
  leb, if◌then◌else◌, length, ℤ, pos, negsuc, ltb_ℤ, ◌==ℤ◌, ℕ, ◌==◌, ◌+◌, ◌-◌, ◌%◌, ◌^◌, Bool, true,
  false, not, ◌&&◌, List, [], ◌∷◌, ◌++◌,
}
use networked_capture_the_fl.Server.Queues.{OutboundEvent, push}
use networked_capture_the_fl.Server.Registry.{SockAddr, ClientEntry}
use networked_capture_the_fl.Server.Broadcast.{has_fd}
use networked_capture_the_fl.Server.NetServer.{NetServer, on_udp_packet}
use networked_capture_the_fl.Server.NetServer.Outbound.{
  handle_wake, enforce_pending_cap, check_silence_timeouts,
}
use networked_capture_the_fl.Server.NetServer.Streams.{
  Recv, Send, handle_tcp_readable, flush_pending,
}

pub record EventLoop : Type 0 where
  pub server : NetServer
  pub tcp_listen_fd : ℤ
  pub udp_fd : ℤ
  pub event_fd : ℤ
  pub local_port : ℕ
  pub running : Bool
  pub watches : List (ℤ × Bool)

-- The loop of a server that is not started.
abbrev pub not_started : NetServer → EventLoop
not_started s = record {
  server = s;
  tcp_listen_fd = negsuc 0;
  udp_fd = negsuc 0;
  event_fd = negsuc 0;
  local_port = 0;
  running = false;
  watches = [];
}

-- What `recvfrom` returns: bytes of a sender, and the time at which their handler reads the clock;
-- `EINTR`; or an empty datagram, `EAGAIN` or an error.
pub data Recvfrom : Type 0 where
  from_sender : ℕ → SockAddr → List ℕ → Recvfrom
  recvfrom_interrupted recvfrom_ended : Recvfrom

unfoldable pub handle_udp_readable : List Recvfrom → NetServer → NetServer
handle_udp_readable [] s = s
handle_udp_readable (from_sender now src bytes ∷ reads) s =
    handle_udp_readable reads (on_udp_packet now src bytes s)
handle_udp_readable (recvfrom_interrupted ∷ reads) s = handle_udp_readable reads s
handle_udp_readable (recvfrom_ended ∷ reads) s = s

-- The descriptors of new connections, until there is none left.
unfoldable pub accept_new_clients : List ℤ → EventLoop → EventLoop
accept_new_clients [] l = l
accept_new_clients (fd ∷ fds) l =
    accept_new_clients fds (record l { watches = l.watches ++ (fd, false) ∷ [] })

pub record PollResult : Type 0 where
  pub fd : ℤ
  pub readable : Bool
  pub writable : Bool

-- A result of the poller; what the calls on its descriptor return, with the time and the token that
-- its handlers read; the events that the simulation has pushed until then; and whether `stop` is
-- called before the next result.
pub record Ready : Type 0 where
  pub result : PollResult
  pub now : ℕ
  pub token : ℕ
  pub reads : List Recv
  pub sends : List Send
  pub packets : List Recvfrom
  pub accepts : List ℤ
  pub events : List OutboundEvent
  pub stops : Bool

abbrev pub with_events : List OutboundEvent → NetServer → NetServer
with_events [] s = s
with_events (ev ∷ evs) s = with_events evs (record s { outbound = push ev s.outbound })

-- The handler that a result calls for.
abbrev pub on_ready : (List ℕ → List ℕ) → Ready → EventLoop → EventLoop
on_ready shuffle r l =
    let fd = r.result.fd in
    let s = l.server in
    if fd ==ℤ l.event_fd
    then record l { server = handle_wake s }
    else if fd ==ℤ l.udp_fd
    then (if r.result.readable then record l { server = handle_udp_readable r.packets s } else l)
    else if fd ==ℤ l.tcp_listen_fd
    then accept_new_clients r.accepts l
    else if r.result.readable
    then record l { server = handle_tcp_readable r.now r.token shuffle fd r.reads s }
    else if r.result.writable
    then record l { server = flush_pending fd r.sends s }
    else l

unfoldable pub stop : EventLoop → EventLoop
stop l = record l { running = false }

abbrev pub on_result : (List ℕ → List ℕ) → Ready → EventLoop → EventLoop
on_result shuffle r l =
    let done = on_ready shuffle r (record l { server = with_events r.events l.server }) in
    if r.stops then stop done else done

-- The results of one wait, while the loop is running.
unfoldable pub on_results : (List ℕ → List ℕ) → List Ready → EventLoop → EventLoop
on_results shuffle [] l = l
on_results shuffle (r ∷ rs) l =
    let next = on_results shuffle rs (on_result shuffle r l) in if l.running then next else l

-- The interest in writing, of each client that is connected.
abbrev pub write_interests : List ClientEntry → List (ℤ × Bool)
write_interests [] = []
write_interests (e ∷ es) =
    let rest = write_interests es in
    if has_fd e then (e.tcp_fd, not (length e.pending_out == 0)) ∷ rest else rest

-- A turn of the loop: the results of a wait, and the times at which the silence is checked.
pub record LoopTurn : Type 0 where
  pub results : List Ready
  pub now : ℕ
  pub check_now : ℕ

-- Whether 100 ms are over since the last check.
abbrev pub check_is_due : ℕ → NetServer → Bool
check_is_due now s = leb 100 ((now + 2 ^ 32 - s.last_silence_check_ms) % 2 ^ 32)

-- What follows the results: the interests, the cap on pending bytes, and the check of the silence.
unfoldable pub finish_round : ℕ → ℕ → EventLoop → EventLoop
finish_round now check_now l =
    let s = enforce_pending_cap l.server in
    record l {
      watches = l.watches ++ write_interests l.server.registry;
      server = if check_is_due now s then check_silence_timeouts check_now s else s;
    }

abbrev pub run_round : (List ℕ → List ℕ) → LoopTurn → EventLoop → EventLoop
run_round shuffle rd l = finish_round rd.now rd.check_now (on_results shuffle rd.results l)

abbrev pub run_loop : (List ℕ → List ℕ) → List LoopTurn → EventLoop → EventLoop
run_loop shuffle [] l = l
run_loop shuffle (rd ∷ rds) l =
    let next = run_loop shuffle rds (run_round shuffle rd l) in if l.running then next else l

-- The first turns of `run`; after `stop` there are no more.
unfoldable pub run : (List ℕ → List ℕ) → List LoopTurn → EventLoop → EventLoop
run shuffle rounds l = run_loop shuffle rounds (record l { running = true })

-- What the system returns while the server starts.
pub record Opening : Type 0 where
  pub listen_fd : ℤ
  pub binds : Bool
  pub listens : Bool
  pub listen_port : ℕ
  pub datagram_fd : ℤ
  pub datagram_binds : Bool
  pub datagram_port : ℕ
  pub wake_fd : ℤ
  pub now : ℕ

abbrev pub is_fd : ℤ → Bool
is_fd fd = not (ltb_ℤ fd (pos 0))

-- A step that fails leaves what the steps before it opened.
unfoldable pub start : Opening → EventLoop → Bool × EventLoop
start o l =
    let with_tcp = record l { tcp_listen_fd = o.listen_fd } in
    let with_udp = record with_tcp { local_port = o.listen_port; udp_fd = o.datagram_fd } in
    let with_port = record with_udp {
      server = record l.server { udp_port = o.datagram_port };
      event_fd = o.wake_fd;
    } in
    if not (is_fd o.listen_fd && o.binds && o.listens)
    then (false, with_tcp)
    else if not (is_fd o.datagram_fd && o.datagram_binds)
    then (false, with_udp)
    else if not (is_fd o.wake_fd)
    then (false, with_port)
    else (
      true,
      record with_port {
        server = record with_port.server { last_silence_check_ms = o.now };
        watches =
            l.watches ++ (o.listen_fd, false) ∷ (o.datagram_fd, false) ∷ (o.wake_fd, false) ∷ [];
      },
    )

-- `if (fd >= 0) close(fd);`
abbrev pub close_fd : ℤ → List ℤ → List ℤ
close_fd fd closed = if is_fd fd then closed ++ fd ∷ [] else closed

abbrev pub close_clients : List ClientEntry → List ℤ → List ℤ
close_clients [] closed = closed
close_clients (e ∷ es) closed = close_clients es (close_fd e.tcp_fd closed)

-- `NetServer::~NetServer`: what it closes.
unfoldable pub close_all : EventLoop → List ℤ
close_all l =
    close_fd l.event_fd
      (close_fd l.udp_fd (close_fd l.tcp_listen_fd (close_clients l.server.registry [])))
