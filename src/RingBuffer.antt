-- ===== src/RingBuffer.antt =====
-- shared/ring_buffer.h: a ring of a fixed capacity, which overwrites its oldest element when full.
pub mod Slots
pub mod Laws
use networked_capture_the_fl.Prelude.{
  ℕ, zero, suc, ◌+◌, ◌-◌, ◌%◌, Bool, List, [], ◌∷◌, get_or, set, replicate, if◌then◌else◌, ltb,
  ◌==◌,
}

-- `default` is what `T{}` is.
module _ {ℓ} {T : Type ℓ} (capacity : ℕ) (default : T) where
  pub record RingBuffer : Type ℓ where
    pub data_ : List T
    pub head : ℕ
    pub tail : ℕ
    pub size : ℕ

  abbrev pub empty_ring : RingBuffer
  empty_ring = record { data_ = replicate capacity default; head = 0; tail = 0; size = 0 }

  unfoldable pub push_back : T → RingBuffer → RingBuffer
  push_back item r =
      let data_ = set r.data_ r.tail item in
      let tail = (r.tail + 1) % capacity in
      if ltb r.size capacity
      then record { data_ = data_; head = r.head; tail = tail; size = r.size + 1 }
      else record { data_ = data_; head = (r.head + 1) % capacity; tail = tail; size = r.size }

  unfoldable pub pop_front : RingBuffer → RingBuffer
  pop_front r =
      if r.size == 0 then r else record r { head = (r.head + 1) % capacity; size = r.size - 1 }

  -- The loop over `n` further elements from `i` on, which keeps `new_size` elements so far.
  abbrev pub remove_loop : (T → Bool) → ℕ → ℕ → ℕ → ℕ → List T → List T × ℕ
  remove_loop pred head zero i new_size data_ = (data_, new_size)
  remove_loop pred head (suc n) i new_size data_ =
      let idx = (head + i) % capacity in
      let dst = (head + new_size) % capacity in
      let v = get_or data_ idx default in
      let moved = if dst == idx then data_ else set data_ dst v in
      remove_loop pred head n (i + 1) (if pred v then new_size else new_size + 1)
        (if pred v then data_ else moved)

  unfoldable pub remove_if : (T → Bool) → RingBuffer → RingBuffer
  remove_if pred r =
      let (data_, new_size) = remove_loop pred r.head r.size 0 0 r.data_ in
      record {
        data_ = data_;
        head = r.head;
        tail = (r.head + new_size) % capacity;
        size = new_size;
      }

  -- `operator[]`
  abbrev pub element : RingBuffer → ℕ → T
  element r i = get_or r.data_ ((r.head + i) % capacity) default

  abbrev pub front : RingBuffer → T
  front r = get_or r.data_ r.head default

  abbrev pub back : RingBuffer → T
  back r = get_or r.data_ ((r.tail + capacity - 1) % capacity) default

  -- The slots that `n` elements from position `start` take, and what an iteration visits.
  abbrev pub slots : List T → ℕ → ℕ → List T
  slots data_ zero start = []
  slots data_ (suc n) start = get_or data_ (start % capacity) default ∷ slots data_ n (start + 1)

  abbrev pub contents : RingBuffer → List T
  contents r = slots r.data_ r.size r.head
