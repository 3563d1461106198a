-- ===== src/Tests/Events.antt =====
-- Events at concrete inputs (client/net_client.cpp).
use networked_capture_the_fl.Prelude.{◌≡◌, [], ◌∷◌, none, replicate, pos, negsuc, arith}
use networked_capture_the_fl.GameTypes.{blue}
use networked_capture_the_fl.ByteBuffer.{writer, written}
use networked_capture_the_fl.Protocol.Events.{EventMsg, flag_dropped, write_msg}
use networked_capture_the_fl.Client.Events.{EventLog, in_game, happened}
use networked_capture_the_fl.Client.Events.Laws.{received_event, arrives, arrives-write_msg}

abbrev playing : EventLog
playing = record { state = in_game; lobby_state = none; game_start = none; pending = [] }

abbrev dropped_flag : EventMsg
dropped_flag =
    flag_dropped
      (record { flag_team = blue; position = record { x = pos 17749; y = negsuc 20 }; tick = 900 })

arrives-write_msg_example :
    arrives dropped_flag (written (write_msg dropped_flag (writer (replicate 96 0)))) playing
    ≡ record playing { pending = happened (received_event dropped_flag) ∷ [] }
arrives-write_msg_example =
    arrives-write_msg dropped_flag (replicate 96 0) playing (omega arith) (omega arith)
