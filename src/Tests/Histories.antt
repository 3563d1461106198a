-- ===== src/Tests/Histories.antt =====
-- Rings and predictions at concrete inputs (shared/ring_buffer.h, client/prediction.cpp).
use networked_capture_the_fl.Prelude.{
  ℕ, ◌+◌, ◌-◌, ◌≡◌, refl, [], ◌∷◌, ◌++◌, drop, without, length, leb, pos, arith,
}
use networked_capture_the_fl.GameTypes.{
  InputCmd, PlayerState, no_player, no_vec, WorldSnapshot, no_snapshot,
}
use networked_capture_the_fl.RingBuffer.{RingBuffer, empty_ring, push_back, remove_if, contents}
use networked_capture_the_fl.RingBuffer.Laws.{IsRing, push_back_lem, remove_if_lem}
use networked_capture_the_fl.Client.Prediction.{no_prediction, on_local_tick, on_snapshot}
use networked_capture_the_fl.Client.Prediction.Laws.{
  begin, ticks, placed, IsPredicted, Run-IsPredicted,
}

abbrev unset : ℕ
unset = 0

-- Three slots, which hold 2, 3 and 4 from slot 1 on.
abbrev ring : RingBuffer 3 unset
ring = record { data_ = 4 ∷ 2 ∷ 3 ∷ []; head = 1; tail = 1; size = 3 }

pushed :
    push_back 3 unset 4
      (push_back 3 unset 3 (push_back 3 unset 2 (push_back 3 unset 1 (empty_ring 3 unset))))
    ≡ ring
unfolding push_back
pushed = refl

ring-IsRing : IsRing 3 unset ring
ring-IsRing = record {
  some = omega arith;
  room = refl;
  head_in = omega arith;
  size_in = omega arith;
  tail_at = refl;
}

push_back_lem_example :
    let q = push_back 3 unset 5 ring in
    IsRing 3 unset q
    × (contents 3 unset q
        ≡ drop (length (contents 3 unset ring) + 1 - 3) (contents 3 unset ring) ++ 5 ∷ [])
push_back_lem_example = push_back_lem 3 unset 5 ring ring-IsRing

remove_if_lem_example :
    let q = remove_if 3 unset (λ x. leb x 2) ring in
    IsRing 3 unset q × (contents 3 unset q ≡ without (λ x. leb x 2) (contents 3 unset ring))
remove_if_lem_example = remove_if_lem 3 unset (λ x. leb x 2) ring ring-IsRing

abbrev right : InputCmd
right = record { buttons = 8; aim_angle = 0 }

abbrev me : PlayerState
me = record no_player {
  id = 3;
  motion = record { position = record { x = pos 16384; y = pos 40960 }; velocity = no_vec };
}

-- The second input of three is acknowledged.
abbrev answer : WorldSnapshot
answer = record no_snapshot { tick = 5; last_input_seq = 2; player_count = 1; players = me ∷ [] }

Run-IsPredicted_example :
    IsPredicted 3
      (record { position = record { x = pos 16384; y = pos 40960 }; velocity = no_vec })
      ((3, right) ∷ [])
      (on_snapshot answer 3
        (on_local_tick right (on_local_tick right (on_local_tick right no_prediction))))
unfolding on_local_tick push_back
Run-IsPredicted_example = Run-IsPredicted (
    placed answer 3 me
      (ticks right (ticks right (ticks right begin (omega arith)) (omega arith)) (omega arith))
      (omega arith) refl)
