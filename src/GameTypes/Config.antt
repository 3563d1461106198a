-- ===== src/GameTypes/Config.antt =====
-- shared/game_config.h: the tuning constants, as far as the modelled code uses them.
use networked_capture_the_fl.Prelude.{ℕ, ◌*◌}

abbrev pub tick_rate_hz : ℕ
tick_rate_hz = 30

abbrev pub tile_size_px : ℕ
tile_size_px = 32

abbrev pub player_size_px : ℕ
player_size_px = 24

abbrev pub move_speed_fp_per_tick : ℕ
move_speed_fp_per_tick = 1365

abbrev pub diagonal_factor_num : ℕ
diagonal_factor_num = 181

abbrev pub max_health : ℕ
max_health = 100

abbrev pub input_redundancy : ℕ
input_redundancy = 3

abbrev pub fixed_shift : ℕ
fixed_shift = 8

abbrev pub fixed_scale : ℕ
fixed_scale = 256

abbrev pub map_width_tiles : ℕ
map_width_tiles = 40

abbrev pub map_height_tiles : ℕ
map_height_tiles = 25

abbrev pub max_players : ℕ
max_players = 10

abbrev pub wire_fixed_shift : ℕ
wire_fixed_shift = 4

abbrev pub tcp_frame_header_bytes : ℕ
tcp_frame_header_bytes = 3

abbrev pub tcp_frame_cap_bytes : ℕ
tcp_frame_cap_bytes = 4096

abbrev pub damage_per_shot : ℕ
damage_per_shot = 34

abbrev pub fire_cooldown_ticks : ℕ
fire_cooldown_ticks = 10

abbrev pub respawn_delay_ticks : ℕ
respawn_delay_ticks = 90

abbrev pub flag_auto_return_ticks : ℕ
flag_auto_return_ticks = 450

abbrev pub score_to_win : ℕ
score_to_win = 3

abbrev pub match_time_limit_sec : ℕ
match_time_limit_sec = 10 * 60

abbrev pub input_ring_size : ℕ
input_ring_size = 8

abbrev pub snapshot_keyframe_interval : ℕ
snapshot_keyframe_interval = 10

abbrev pub input_history_ring_size : ℕ
input_history_ring_size = 64

abbrev pub udp_header_bytes : ℕ
udp_header_bytes = 8

abbrev pub udp_hello_resend_ms : ℕ
udp_hello_resend_ms = 200

abbrev pub heartbeat_interval_sec : ℕ
heartbeat_interval_sec = 1
