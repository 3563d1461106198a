-- ===== src/Client/NetClient/Handshakes.antt =====
-- How the handshake of client/net_client.cpp can end, and what becomes of the sockets.
use networked_capture_the_fl.Prelude.{
  ◌==◌, if◌then◌else◌, not-false, if_true, if_false, if-elim, not-true, replicate, ℤ, ℕ, ◌+◌, ◌%◌,
  ◌^◌, ◌≡◌, refl, subst, ◌⊎◌, inl, inr, Bool, true, false, not, ◌&&◌, Option, none, some, List,
  arith,
}
use mathlib.Core.List.{Memᴰ}
use mathlib.Core.List.Memᴰ
use networked_capture_the_fl.ByteBuffer.{writer, written}
use networked_capture_the_fl.Protocol.Handshake.{
  MsgJoinAccept, decode_join_accept, encode_join_lobby,
}
use networked_capture_the_fl.Client.Events.{disconnected, rejected, in_lobby, decoded}
use networked_capture_the_fl.Client.NetClient.{
  NetClient, no_fd, is_open, in_state, disconnect_client, send_tcp_frame, Waited,
  wait_for_tcp_frame, Network, joining_name, fails, accepted, answered, asked, settled, join_on,
  connect_and_join,
}

-- No socket is open, and those that were opened have been closed.
pub record IsReleased (tcp udp : ℤ) (c : NetClient) : Type 0 where
  pub tcp_closed : is_open c.tcp_fd ≡ false
  pub udp_closed : is_open c.udp_fd ≡ false
  pub state : (c.events.state ≡ disconnected) ⊎ (c.events.state ≡ rejected)
  pub tcp_released : is_open tcp ≡ true → Memᴰ tcp c.closed
  pub udp_released : is_open udp ≡ true → Memᴰ udp c.closed

-- Both sockets are open, and the client is in the lobby.
pub record IsJoined (tcp udp : ℤ) (c : NetClient) : Type 0 where
  pub tcp_open : c.tcp_fd ≡ tcp
  pub udp_open : c.udp_fd ≡ udp
  pub state : c.events.state ≡ in_lobby

-- The sockets that a handshake opens.
abbrev pub opened_tcp : Network → ℤ
opened_tcp net = if net.resolved then net.tcp_socket else no_fd

abbrev pub opened_udp : Network → ℤ
opened_udp net =
    if net.resolved && (is_open net.tcp_socket && net.connects) then net.udp_socket else no_fd

pub data Ends (tcp udp : ℤ) (o : Bool × NetClient) : Type 0 where
  joins : o.0 ≡ true → IsJoined tcp udp o.1 → Ends tcp udp o
  gives_up : o.0 ≡ false → IsReleased tcp udp o.1 → Ends tcp udp o

closed_fd : (fd : ℤ) → is_open (if is_open fd then no_fd else fd) ≡ false
closed_fd fd = if-elim (λ f. is_open f ≡ false) (is_open fd) no_fd fd (λ e. refl) (λ e. e)

disconnect_client-IsReleased : (c : NetClient) → IsReleased c.tcp_fd c.udp_fd (disconnect_client c)
unfolding disconnect_client
disconnect_client-IsReleased c = record {
  tcp_closed = closed_fd c.tcp_fd;
  udp_closed = closed_fd c.udp_fd;
  state = inl refl;
  tcp_released = λ e. rw e (Memᴰ.append_left _ (Memᴰ.append_right c.closed (Memᴰ.head refl)));
  udp_released = λ e. rw e (Memᴰ.append_right _ (Memᴰ.head refl));
}

fails-Ends :
    (tcp udp : ℤ) (c : NetClient) → c.tcp_fd ≡ tcp → c.udp_fd ≡ udp → Ends tcp udp (fails c)
fails-Ends tcp udp c e f = gives_up refl (
    subst (λ t. IsReleased t udp (disconnect_client c)) e
      (subst (λ u. IsReleased c.tcp_fd u (disconnect_client c)) f (disconnect_client-IsReleased c)))

accepted-Ends :
    (tcp udp : ℤ) (m : Option MsgJoinAccept) (c : NetClient)
    → c.tcp_fd ≡ tcp
    → c.udp_fd ≡ udp
    → Ends tcp udp (accepted m c)
accepted-Ends tcp udp none c e f = fails-Ends tcp udp c e f
accepted-Ends tcp udp (some m) c e f =
    joins refl (record { tcp_open = e; udp_open = f; state = refl })

rejected-Ends :
    (tcp udp : ℤ) (c : NetClient)
    → c.tcp_fd ≡ tcp
    → c.udp_fd ≡ udp
    → Ends tcp udp (false, in_state rejected (disconnect_client c))
rejected-Ends tcp udp c e f = elim (fails-Ends tcp udp c e f) [
  | joins h j ↦ cc
  | gives_up h r ↦ gives_up refl (record {
    tcp_closed = r.tcp_closed;
    udp_closed = r.udp_closed;
    state = inr refl;
    tcp_released = r.tcp_released;
    udp_released = r.udp_released;
  })
]

answered-Ends :
    (tcp udp : ℤ) (answer : Option (ℕ × List ℕ)) (c : NetClient)
    → c.tcp_fd ≡ tcp
    → c.udp_fd ≡ udp
    → Ends tcp udp (answered answer c)
answered-Ends tcp udp none c e f = fails-Ends tcp udp c e f
answered-Ends tcp udp (some (type, payload)) c e f =
    if-elim (Ends tcp udp) (type == 2) _ _
      (λ h. accepted-Ends tcp udp (decoded decode_join_accept payload) c e f)
      (λ h.
        if-elim (Ends tcp udp) (type == 3) _ (fails c) (λ k. rejected-Ends tcp udp _ e f)
          (λ k. fails-Ends tcp udp c e f))

send_tcp_frame-fds :
    (type : ℕ) (payload : List ℕ) (c : NetClient)
    → ((send_tcp_frame type payload c).tcp_fd ≡ c.tcp_fd)
      × ((send_tcp_frame type payload c).udp_fd ≡ c.udp_fd)
unfolding send_tcp_frame
send_tcp_frame-fds type payload c =
    if-elim (λ (t : NetClient). (t.tcp_fd ≡ c.tcp_fd) × (t.udp_fd ≡ c.udp_fd)) (is_open c.tcp_fd) _
      c (λ e. (refl, refl)) (λ e. (refl, refl))

settled-Ends :
    (tcp udp : ℤ) (w : Waited) (c : NetClient)
    → c.tcp_fd ≡ tcp
    → c.udp_fd ≡ udp
    → Ends tcp udp (settled w c)
settled-Ends tcp udp (answer, left) c e f =
    answered-Ends tcp udp answer (record c { tcp_rx = left }) e f

join_on-Ends :
    (name : List ℕ) (timeout_ms : ℕ) (net : Network) (c : NetClient)
    → Ends c.tcp_fd c.udp_fd (join_on name timeout_ms net c)
unfolding join_on
join_on-Ends name timeout_ms net c =
    let (e, f) =
      send_tcp_frame-fds 1
        (written
          (encode_join_lobby (record { name = joining_name name }) (writer (replicate 16 0))))
        c in
    settled-Ends c.tcp_fd c.udp_fd
      (wait_for_tcp_frame ((net.started + timeout_ms) % 2 ^ 32) net.turns (asked name c).tcp_rx)
      (asked name c) e f

-- A guard of three tests.
all_three : (a b c : Bool) → a ≡ true → b ≡ true → c ≡ true → (a && (b && c)) ≡ true
all_three a b c h k l = ground arith

not_first : (a b c : Bool) → a ≡ false → (a && (b && c)) ≡ false
not_first a b c h = ground arith

not_second : (a b c : Bool) → b ≡ false → (a && (b && c)) ≡ false
not_second a b c h = ground arith

not_third : (a b c : Bool) → c ≡ false → (a && (b && c)) ≡ false
not_third a b c h = ground arith

-- The same end, for the sockets by other names.
Ends-as :
    (tcp udp tcp' udp' : ℤ) (o : Bool × NetClient)
    → tcp' ≡ tcp
    → udp' ≡ udp
    → Ends tcp udp o
    → Ends tcp' udp' o
Ends-as tcp udp tcp' udp' o e f h = rw (e, f) h

-- A client that gives up before it has a datagram socket, or any.
refused-Ends :
    (tcp udp : ℤ) (c : NetClient) → is_open udp ≡ false → c.tcp_fd ≡ tcp → Ends tcp udp (fails c)
refused-Ends tcp udp c h e = elim (fails-Ends tcp c.udp_fd c e refl) [
  | joins k j ↦ cc
  | gives_up k r ↦ gives_up refl (record {
    tcp_closed = r.tcp_closed;
    udp_closed = r.udp_closed;
    state = r.state;
    tcp_released = r.tcp_released;
    udp_released = λ l. cc;
  })
]

unopened-Ends :
    (tcp udp : ℤ) (c : NetClient)
    → is_open tcp ≡ false
    → is_open udp ≡ false
    → is_open c.tcp_fd ≡ false
    → is_open c.udp_fd ≡ false
    → c.events.state ≡ disconnected
    → Ends tcp udp (false, c)
unopened-Ends tcp udp c h k e f s = gives_up refl (record {
  tcp_closed = e;
  udp_closed = f;
  state = inl s;
  tcp_released = λ l. cc;
  udp_released = λ l. cc;
})

-- A handshake ends with both sockets open in the lobby, or it returns false, in the state Disconnected
-- or Rejected: then no socket is open, and those that it opened have been closed.
pub connect_and_join-Ends :
    (name : List ℕ) (timeout_ms : ℕ) (net : Network) (c : NetClient)
    → Ends (opened_tcp net) (opened_udp net) (connect_and_join name timeout_ms net c)
unfolding connect_and_join disconnect_client
connect_and_join-Ends name timeout_ms net c =
    let start = disconnect_client c in
    let with_tcp = record start { tcp_fd = net.tcp_socket } in
    let with_udp = record with_tcp { udp_fd = net.udp_socket } in
    let r = disconnect_client-IsReleased c in
    let tcp = net.tcp_socket in
    let P = Ends (opened_tcp net) (opened_udp net) in
    if-elim P (not net.resolved) _ _
      (λ a.
        let n = not-true net.resolved a in
        Ends-as no_fd no_fd _ _ (false, start) (if_false net.resolved _ _ n)
          (if_false _ net.udp_socket no_fd (not_first net.resolved (is_open tcp) net.connects n))
          (unopened-Ends no_fd no_fd start refl refl r.tcp_closed r.udp_closed refl))
      (λ a.
        let y = not-false net.resolved a in
        let named = if_true net.resolved tcp no_fd y in
        if-elim P (not (is_open tcp)) _ _
          (λ b.
            let n = not-true (is_open tcp) b in
            Ends-as tcp no_fd _ _ (false, with_tcp) named
              (if_false _ net.udp_socket no_fd
                (not_second net.resolved (is_open tcp) net.connects n))
              (unopened-Ends tcp no_fd with_tcp n refl n r.udp_closed refl))
          (λ b.
            if-elim P (not net.connects) _ _
              (λ d.
                Ends-as tcp no_fd _ _ (fails with_tcp) named
                  (if_false _ net.udp_socket no_fd
                    (not_third net.resolved (is_open tcp) net.connects (not-true net.connects d)))
                  (refused-Ends tcp no_fd with_tcp refl refl))
              (λ d.
                let both = if_true _ net.udp_socket no_fd (
                  all_three net.resolved (is_open tcp) net.connects y (not-false (is_open tcp) b)
                    (not-false net.connects d)) in
                let done = Ends-as tcp net.udp_socket (opened_tcp net) (opened_udp net) in
                if-elim P (not (is_open net.udp_socket)) _ _
                  (λ u.
                    done (fails with_udp) named both
                      (fails-Ends tcp net.udp_socket with_udp refl refl))
                  (λ u.
                    if-elim P (not net.binds) _ _
                      (λ v.
                        done (fails with_udp) named both
                          (fails-Ends tcp net.udp_socket with_udp refl refl))
                      (λ v. done _ named both (join_on-Ends name timeout_ms net with_udp))))))
