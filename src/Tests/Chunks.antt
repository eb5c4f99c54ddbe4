-- ===== src/Tests/Chunks.antt =====
-- Witnesses for the chunk provider.
use clipboard_helper.Prelude.{◌+◌, ◌≡◌, refl, true, false, [], ◌∷◌, Bytes}
use clipboard_helper.Windows.ChunkProvider.{
  Provider, new_slot, s_ok, e_fail, failing, make_key, find_queue, end_fetch, deliver_chunk,
}
use clipboard_helper.Windows.ChunkProvider.Delivery.{staged, second_waiter}

abbrev id : Bytes
id = b't' ∷ b'1' ∷ []

abbrev idle : Provider
idle = record { has_pipe = true; pending = []; slots = λ i. new_slot; next = 0 }

second_waiter_example :
    ((end_fetch false (make_key id id 4096) 0 (
        deliver_chunk id id 4096 (2 ∷ []) true [] (
          deliver_chunk id id 4096
            (1 ∷ [])
            false
            []
            (staged id id 4096 (staged id id 4096 idle))))).0
      ≡ record { result = s_ok; out_data = 2 ∷ []; out_is_last = true })
    × ((end_fetch false (make_key id id 4096) (0 + 1) (
          deliver_chunk id id 4096 (2 ∷ []) true [] (
            deliver_chunk id id 4096
              (1 ∷ [])
              false
              []
              (staged id id 4096 (staged id id 4096 idle))))).0
        ≡ failing e_fail)
unfolding find_queue
second_waiter_example =
    second_waiter id id 4096 idle (1 ∷ []) (2 ∷ []) false true refl refl refl refl
