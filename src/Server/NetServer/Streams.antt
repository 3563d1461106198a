-- ===== src/Server/NetServer/Streams.antt =====
-- The TCP connections of server/net_server.cpp: what is read is collected and its frames are handed
-- to the handlers, and what is pending is sent. What the system returns is a parameter, in order; at
-- its end a call would block.
use networked_capture_the_fl.Prelude.{
  ltb, ◌==◌, if◌then◌else◌, length, get_or, set, take, drop, ℤ, ◌==ℤ◌, ℕ, Bool, true, false, Option,
  none, some, List, [], ◌∷◌, ◌++◌,
}
use networked_capture_the_fl.GameTypes.Config.{tcp_frame_cap_bytes}
use networked_capture_the_fl.ByteBuffer.{reader}
use networked_capture_the_fl.Protocol.Handshake.{decode_join_lobby, decode_empty}
use networked_capture_the_fl.Framing.{drain}
use networked_capture_the_fl.Server.Registry.{ClientEntry, find_by_fd}
use networked_capture_the_fl.Server.NetServer.{
  NetServer, if_decoded, disconnect, close_unregistered,
}
use networked_capture_the_fl.Server.NetServer.Joining.{on_join_lobby}
use networked_capture_the_fl.Server.NetServer.Matches.{on_start_request}

-- What `accum_for` refers to: the bytes of a client, or those of a descriptor that has not joined.
pub data Accum : Type 0 where
  of_client : ℕ → Accum
  of_fd : ℤ → Accum

-- What `recv` returns: 0, an error, `EAGAIN`, or bytes, one at least.
pub data Recv : Type 0 where
  hung_up recv_failed recv_blocked : Recv
  got : List ℕ → Recv

-- What `send` returns: an error, `EAGAIN`, `EINTR`, or the number of bytes that it took.
pub data Send : Type 0 where
  send_failed send_blocked interrupted : Send
  took : ℕ → Send

abbrev pub accum_of : ℤ → Option ClientEntry → Accum
accum_of fd none = of_fd fd
accum_of fd (some e) = of_client e.player_id

unfoldable pub accum_for : ℤ → NetServer → Accum
accum_for fd s = accum_of fd (find_by_fd fd s.registry)

-- A map from descriptors to bytes; one that is missing has none.
abbrev pub lookup_fd : ℤ → List (ℤ × List ℕ) → List ℕ
lookup_fd fd [] = []
lookup_fd fd ((key, bytes) ∷ entries) =
    let rest = lookup_fd fd entries in if key ==ℤ fd then bytes else rest

abbrev pub put_fd : ℤ → List ℕ → List (ℤ × List ℕ) → List (ℤ × List ℕ)
put_fd fd bytes [] = (fd, bytes) ∷ []
put_fd fd bytes ((key, old) ∷ entries) =
    let rest = put_fd fd bytes entries in
    if key ==ℤ fd then (key, bytes) ∷ entries else (key, old) ∷ rest

abbrev pub accum : Accum → NetServer → List ℕ
accum (of_client id) s = get_or s.tcp_in id []
accum (of_fd fd) s = lookup_fd fd s.pre_join

abbrev pub put_accum : Accum → List ℕ → NetServer → NetServer
put_accum (of_client id) bytes s = record s { tcp_in = set s.tcp_in id bytes }
put_accum (of_fd fd) bytes s = record s { pre_join = put_fd fd bytes s.pre_join }

-- `if (entry != nullptr) disconnect(*entry, true); else close_unregistered(fd);`
abbrev pub give_up : ℤ → Accum → NetServer → NetServer
give_up fd (of_client id) s = disconnect id true s
give_up fd (of_fd key) s = close_unregistered fd s

abbrev pub chunk_size : ℕ
chunk_size = 2048

-- The reads; false when the connection was given up.
abbrev pub read_loop : ℤ → Accum → List Recv → NetServer → Bool × NetServer
read_loop fd a [] s = (true, s)
read_loop fd a (hung_up ∷ reads) s = (false, give_up fd a s)
read_loop fd a (recv_failed ∷ reads) s = (false, give_up fd a s)
read_loop fd a (recv_blocked ∷ reads) s = (true, s)
read_loop fd a (got chunk ∷ reads) s =
    let bytes = accum a s ++ chunk in
    let more = read_loop fd a reads (put_accum a bytes s) in
    if ltb tcp_frame_cap_bytes (length bytes)
    then (false, give_up fd a (put_accum a bytes s))
    else (if ltb (length chunk) chunk_size then (true, put_accum a bytes s) else more)

-- The handler of a frame.
abbrev pub on_frame : ℕ → ℕ → (List ℕ → List ℕ) → ℤ → ℕ → List ℕ → NetServer → NetServer
on_frame now token shuffle fd type payload s =
    if type == 1
    then if_decoded (decode_join_lobby (reader payload)).0 (on_join_lobby now token fd) s
    else (if type == 5
        then if_decoded (decode_empty (reader payload)).0 (λ m. on_start_request shuffle fd) s
        else s)

-- The bytes that no frame took stay.
abbrev pub kept_bytes : ℤ → Accum → Option (List ℕ) × NetServer → NetServer
kept_bytes fd a (none, s) = give_up fd (accum_for fd s) s
kept_bytes fd a (some left, s) = put_accum a left s

abbrev pub dispatch_frames : ℕ → ℕ → (List ℕ → List ℕ) → ℤ → Accum → Bool × NetServer → NetServer
dispatch_frames now token shuffle fd a (false, s) = s
dispatch_frames now token shuffle fd a (true, s) =
    kept_bytes fd a (drain (on_frame now token shuffle fd) (accum a s) s)

unfoldable pub handle_tcp_readable :
    ℕ → ℕ → (List ℕ → List ℕ) → ℤ → List Recv → NetServer → NetServer
handle_tcp_readable now token shuffle fd reads s =
    let a = accum_for fd s in
    dispatch_frames now token shuffle fd a (read_loop fd a reads (put_accum a (accum a s) s))

-- Whether the connection stays, the bytes that the system took, and those that are left.
unfoldable pub flush_loop : List Send → List ℕ → Bool × List ℕ × List ℕ
flush_loop [] pending = (true, [], pending)
flush_loop (r ∷ sends) [] = (true, [], [])
flush_loop (send_failed ∷ sends) (b ∷ pending) = (false, [], b ∷ pending)
flush_loop (send_blocked ∷ sends) (b ∷ pending) = (true, [], b ∷ pending)
flush_loop (interrupted ∷ sends) (b ∷ pending) = flush_loop sends (b ∷ pending)
flush_loop (took n ∷ sends) (b ∷ pending) =
    let rest = flush_loop sends (drop n (b ∷ pending)) in
    if n == 0 then (false, [], b ∷ pending) else (rest.0, take n (b ∷ pending) ++ rest.1, rest.2)

-- A change of the entry that `find_by_fd` points to.
abbrev pub change_by_fd : ℤ → List ℕ → List ClientEntry → List ClientEntry
change_by_fd fd pending [] = []
change_by_fd fd pending (e ∷ es) =
    let rest = change_by_fd fd pending es in
    if e.tcp_fd ==ℤ fd then record e { pending_out = pending } ∷ es else e ∷ rest

abbrev pub flushed : ℤ → ℕ → Bool × List ℕ × List ℕ → NetServer → NetServer
flushed fd id (stays, handed, left) s =
    let t = record s {
      frames = s.frames ++ (fd, handed) ∷ [];
      registry = change_by_fd fd left s.registry;
    } in
    if stays then t else disconnect id true t

abbrev pub flush_entry : ℤ → List Send → Option ClientEntry → NetServer → NetServer
flush_entry fd sends none s = s
flush_entry fd sends (some e) s = flushed fd e.player_id (flush_loop sends e.pending_out) s

unfoldable pub flush_pending : ℤ → List Send → NetServer → NetServer
flush_pending fd sends s = flush_entry fd sends (find_by_fd fd s.registry) s
