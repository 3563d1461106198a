-- ===== src/Server/NetServer/Running.antt =====
-- The loop of server/net_server.cpp changes the server by calls of its handlers alone.
use networked_capture_the_fl.Prelude.{
  if-elim, ◌==ℤ◌, ◌≡◌, ℤ, refl, sym, subst, Bool, false, not, ◌&&◌, ℕ, List, [], ◌∷◌, All,
}
use networked_capture_the_fl.Server.Queues.{OutboundEvent, push}
use networked_capture_the_fl.Server.Lobby.{no_lobby}
use networked_capture_the_fl.Server.Registry.{free_fd}
use networked_capture_the_fl.Server.NetServer.{NetServer}
use networked_capture_the_fl.Server.NetServer.Outbound.{enforce_pending_cap}
use networked_capture_the_fl.Server.NetServer.InStep.{IsInStep}
use networked_capture_the_fl.Server.NetServer.Serving.{
  Serves, opened, on_packet, on_wake, on_event, on_cap, on_silence, on_readable, on_writable,
  Serves-IsInStep,
}
use networked_capture_the_fl.Server.NetServer.Rounds.{
  EventLoop, Recvfrom, from_sender, recvfrom_interrupted, recvfrom_ended, handle_udp_readable,
  accept_new_clients, Ready, with_events, on_ready, stop, on_result, on_results, LoopTurn,
  check_is_due, finish_round, run_loop, run, Opening, is_fd, start, not_started,
}

-- A result of the poller names a descriptor, not the mark of a free slot.
abbrev pub IsReal : Ready → Type 0
IsReal r = (r.result.fd ==ℤ free_fd) ≡ false

abbrev pub AreReal : List LoopTurn → Type 0
AreReal rounds = All (λ (rd : LoopTurn). All IsReal rd.results) rounds

module _ (shuffle : List ℕ → List ℕ) where
  with_events-Serves :
      (evs : List OutboundEvent) (s : NetServer)
      → Serves shuffle s
      → Serves shuffle (with_events evs s)
  with_events-Serves [] s v = v
  with_events-Serves (ev ∷ evs) s v =
      with_events-Serves evs (record s { outbound = push ev s.outbound }) (on_event ev v)

  handle_udp_readable-Serves :
      (reads : List Recvfrom) (s : NetServer)
      → Serves shuffle s
      → Serves shuffle (handle_udp_readable reads s)
  unfolding handle_udp_readable
  handle_udp_readable-Serves [] s v = v
  handle_udp_readable-Serves (from_sender now src bytes ∷ reads) s v =
      handle_udp_readable-Serves reads _ (on_packet now src bytes v)
  handle_udp_readable-Serves (recvfrom_interrupted ∷ reads) s v =
      handle_udp_readable-Serves reads s v
  handle_udp_readable-Serves (recvfrom_ended ∷ reads) s v = v

  accept_new_clients-server :
      (fds : List ℤ) (l : EventLoop) → (accept_new_clients fds l).server ≡ l.server
  unfolding accept_new_clients
  accept_new_clients-server [] l = refl
  accept_new_clients-server (fd ∷ fds) l = accept_new_clients-server fds _

  -- The server of the loop was led to by calls of the handlers.
  abbrev IsServing : EventLoop → Type 0
  IsServing l = Serves shuffle l.server

  on_ready-IsServing :
      (r : Ready) (l : EventLoop) → IsReal r → IsServing l → IsServing (on_ready shuffle r l)
  on_ready-IsServing r l real v =
      if-elim IsServing (r.result.fd ==ℤ l.event_fd) _ _ (λ e. on_wake v)
        (λ e.
          if-elim IsServing (r.result.fd ==ℤ l.udp_fd) _ _
            (λ e.
              if-elim IsServing r.result.readable _ l
                (λ e. handle_udp_readable-Serves r.packets l.server v) (λ e. v))
            (λ e.
              if-elim IsServing (r.result.fd ==ℤ l.tcp_listen_fd) _ _
                (λ e. subst (Serves shuffle) (sym (accept_new_clients-server r.accepts l)) v)
                (λ e.
                  if-elim IsServing r.result.readable _ _
                    (λ e. on_readable r.now r.token r.result.fd r.reads real v)
                    (λ e.
                      if-elim IsServing r.result.writable _ l
                        (λ e. on_writable r.result.fd r.sends v) (λ e. v)))))

  on_result-IsServing :
      (r : Ready) (l : EventLoop) → IsReal r → IsServing l → IsServing (on_result shuffle r l)
  unfolding stop
  on_result-IsServing r l real v =
      let done =
        on_ready-IsServing r (record l { server = with_events r.events l.server }) real
          (with_events-Serves r.events l.server v) in
      if-elim IsServing r.stops _ _ (λ e. done) (λ e. done)

  on_results-IsServing :
      (rs : List Ready) (l : EventLoop)
      → All IsReal rs
      → IsServing l
      → IsServing (on_results shuffle rs l)
  unfolding on_results
  on_results-IsServing [] l real v = v
  on_results-IsServing (r ∷ rs) l (one, rest) v =
      if-elim IsServing l.running _ l
        (λ e. on_results-IsServing rs _ rest (on_result-IsServing r l one v)) (λ e. v)

  finish_round-IsServing :
      (now check_now : ℕ) (l : EventLoop) → IsServing l → IsServing (finish_round now check_now l)
  unfolding finish_round
  finish_round-IsServing now check_now l v =
      if-elim (Serves shuffle) (check_is_due now (enforce_pending_cap l.server)) _ _
        (λ e. on_silence check_now (on_cap v)) (λ e. on_cap v)

  run_loop-IsServing :
      (rounds : List LoopTurn) (l : EventLoop)
      → AreReal rounds
      → IsServing l
      → IsServing (run_loop shuffle rounds l)
  run_loop-IsServing [] l real v = v
  run_loop-IsServing (rd ∷ rounds) l (one, rest) v =
      if-elim IsServing l.running _ l
        (λ e.
          run_loop-IsServing rounds _ rest (
            finish_round-IsServing rd.now rd.check_now _ (on_results-IsServing rd.results l one v)))
        (λ e. v)

  start-IsServing :
      (o : Opening) (s : NetServer)
      → s.registry ≡ []
      → s.lobby ≡ no_lobby
      → IsServing (start o (not_started s)).1
  unfolding start
  start-IsServing o s e f =
      if-elim (λ (p : Bool × EventLoop). IsServing p.1)
        (not (is_fd o.listen_fd && o.binds && o.listens)) _ _ (λ h. opened s e f)
        (λ h.
          if-elim (λ (p : Bool × EventLoop). IsServing p.1)
            (not (is_fd o.datagram_fd && o.datagram_binds)) _ _ (λ h. opened s e f)
            (λ h.
              if-elim (λ (p : Bool × EventLoop). IsServing p.1) (not (is_fd o.wake_fd)) _ _
                (λ h. opened _ e f) (λ h. opened _ e f)))

-- From the start of a server with no clients, whatever the system returns and whatever the
-- simulation pushes, after any turns of its loop the players of the lobby are exactly the connected
-- clients of the registry, each once and at most ten, given that no result of the poller is for the
-- mark of a free slot.
pub run-IsInStep :
    (shuffle : List ℕ → List ℕ) (o : Opening) (rounds : List LoopTurn) (s : NetServer)
    → s.registry ≡ []
    → s.lobby ≡ no_lobby
    → AreReal rounds
    → IsInStep (run shuffle rounds (start o (not_started s)).1).server
unfolding run
run-IsInStep shuffle o rounds s e f real =
    Serves-IsInStep (run_loop-IsServing shuffle rounds _ real (start-IsServing shuffle o s e f))
